-- ===== src/Graph/Digest.antt =====
-- `_evidence_digest` (app/graph/nodes.py): what the tools returned, for the report.
use dev_ops_copilot.Base.{◌-◌, ◌<>◌, String, List, [], ◌∷◌, ◌++◌, length, drop}
use dev_ops_copilot.Base.Text.{strip, take_chars}
use dev_ops_copilot.Guardrails.{join}
use dev_ops_copilot.Policy.{ToolCall}
use dev_ops_copilot.Graph.{Message, human, ai, tool}

module _ (dump_args : ToolCall → String) where
  abbrev call_lines : List ToolCall → List String
  call_lines [] = []
  call_lines (c ∷ cs) =
      ("(called " <> c.name <> " " <> take_chars 200 (dump_args c) <> ")") ∷ call_lines cs

  abbrev digest_lines : List Message → List String
  digest_lines [] = []
  digest_lines (human _ ∷ ms) = digest_lines ms
  digest_lines (ai _ calls ∷ ms) = call_lines calls ++ digest_lines ms
  digest_lines (tool content _ name ∷ ms) =
      ("[" <> name <> "] " <> take_chars 600 (strip content)) ∷ digest_lines ms

  -- `lines[-24:]`
  unfoldable pub evidence_digest : List Message → String
  unfolding strip take_chars join
  evidence_digest ms = let lines = digest_lines ms in join "\n" (drop (length lines - 24) lines)
