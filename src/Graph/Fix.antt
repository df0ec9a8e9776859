-- ===== src/Graph/Fix.antt =====
-- The proposed fix and whether it touches the root cause (app/graph/nodes.py).
use dev_ops_copilot.Base.{
  ◌<>◌, String, Bool, true, false, Option, none, some, List, [], ◌∷◌, ◌++◌, ◌&&◌, ◌||◌, ◌==◌,
  string_eq, nat_eq, leb, eqb, length, keep, contains, any_of, if◌then◌else◌,
}
use dev_ops_copilot.Base.Dict.{Dict, lookup}
use dev_ops_copilot.Base.Text.{take_chars}
use dev_ops_copilot.Base.Value.{Value, text, truthy}
use dev_ops_copilot.Guardrails.{join}
use dev_ops_copilot.Policy.{ToolCall}
use dev_ops_copilot.Report.{Report, is_given, evidence_of}
use dev_ops_copilot.Report.Corroboration.{Token, token_eq, salient_tokens}
use dev_ops_copilot.Graph.{Message, ai}

pub data Source : Type 0 where
  pr actions no_source : Source

pub record Fix : Type 0 where
  pub has_fix : Bool
  pub source : Source
  pub text : String
  pub patch : String

abbrev parts_keys : List String
parts_keys = "title" ∷ "body" ∷ "description" ∷ "diff" ∷ "patch" ∷ "files" ∷ "branch" ∷ "head" ∷ []

module _ (dump : Value → String) where
  -- `v if isinstance(v, str) else json.dumps(v, default=str)`
  abbrev shown : Value → String
  shown (text s _) = s
  shown v = dump v

  abbrev parts_of : List String → Dict String Value → List String
  parts_of [] args = []
  parts_of (k ∷ ks) args =
      let rest = parts_of ks args in
      elim (lookup k args) [
        | none ↦ rest
        | some v ↦ if truthy v then (k <> ": " <> shown v) ∷ rest else rest
      ]

  -- The patch of a call, or the patch seen before it.
  abbrev patch_of : String → Dict String Value → String
  patch_of before args = elim (lookup "patch" args) [
    | some (text s _) ↦ if s == "" then before else s
    | _ ↦ before
  ]

  abbrev is_pr : ToolCall → Bool
  is_pr c = c.name == "create_pull_request"

  abbrev scan_calls : List String × String → List ToolCall → List String × String
  scan_calls acc [] = acc
  scan_calls (parts, patch) (c ∷ cs) =
      scan_calls
        (if is_pr c
          then (parts ++ parts_of parts_keys c.args, patch_of patch c.args)
          else (parts, patch))
        cs

  abbrev scan_messages : List String × String → List Message → List String × String
  scan_messages acc [] = acc
  scan_messages acc (ai _ calls ∷ ms) = scan_messages (scan_calls acc calls) ms
  scan_messages acc (_ ∷ ms) = scan_messages acc ms

  abbrev from_pr : List String → String → List String → Fix
  from_pr parts patch [] = record {
    has_fix = true;
    source = pr;
    text = take_chars 2500 (join "\n" parts);
    patch = patch;
  }
  from_pr parts patch (a ∷ as_) = record {
    has_fix = true;
    source = pr;
    text = take_chars 2500 (join "\n" parts <> ("\nRecommended actions:\n" <> join "\n" (a ∷ as_)));
    patch = patch;
  }

  abbrev no_fix : Fix
  no_fix = record { has_fix = false; source = no_source; text = ""; patch = "" }

  abbrev from_actions : Report → Fix
  from_actions r = elim r.recommended_actions [
    | [] ↦ no_fix
    | a ∷ as_ ↦
        if is_given r.root_cause
        then record {
          has_fix = true;
          source = actions;
          text = take_chars 2000 (join "\n" (a ∷ as_));
          patch = "";
        }
        else no_fix
  ]

  unfoldable pub extract_proposed_fix : List Message → Report → Fix
  unfolding take_chars join
  extract_proposed_fix ms r =
      let (parts, patch) = scan_messages ([], "") ms in
      elim parts [ [] ↦ from_actions r | p ∷ ps ↦ from_pr (p ∷ ps) patch r.recommended_actions ]

abbrev text_or_empty : Option String → String
text_or_empty none = ""
text_or_empty (some s) = s

-- A token with a separator or a digit.
abbrev is_specific : Token → Bool
is_specific t =
    any_of
      (λ c.
        eqb c b'.' || (eqb c b'_' || (eqb c b'/' || (eqb c b':' || (leb b'0' c && leb c b'9')))))
      t

-- `_fix_targets_cause(…)["grounded"]`
unfoldable pub fix_targets_cause : String → Report → Bool
unfolding join salient_tokens
fix_targets_cause fix_text r =
    let cause_tokens = salient_tokens (
      text_or_empty r.root_cause
      <> " "
      <> join " " r.affected_services
      <> " "
      <> join " " r.evidence
      <> " "
      <> join " " (evidence_of r.hypotheses)) in
    let shared = keep (contains cause_tokens) (salient_tokens fix_text) in
    leb 2 (length shared) || any_of is_specific shared
