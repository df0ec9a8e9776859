-- ===== src/IncidentMemory.antt =====
-- The memory of past incidents (app/incident_memory.py): the corpus, and what a finished
-- investigation adds to it. The ranking of records (BM25, over logarithms) is left out.
pub mod Distinct
use dev_ops_copilot.Base.{
  ℕ, ◌<>◌, String, Bool, true, false, Option, none, some, List, [], ◌∷◌, ◌++◌, ◌&&◌, ◌||◌, not,
  contains, any_of, keep, map, take, length, leb, ltb, ◌==◌, string_eq, if◌then◌else◌,
}
use dev_ops_copilot.Base.Int.{show_ℕ}
use dev_ops_copilot.Base.Case.{lower_str}
use dev_ops_copilot.Base.Text.{is_alnum, strip, take_chars, codes}
use dev_ops_copilot.Guardrails.{join}
use dev_ops_copilot.Report.{Report, Verification, FixVerdict, verified}
use Prim.Native.Char.{Char, code}

pub record Incident : Type 0 where
  pub id : String
  pub title : String
  pub date : String
  pub service : String
  pub tags : List String
  pub summary : String
  pub root_cause : String
  pub resolution : String
  pub runbook : List String
  pub learned : Bool

-- `load_corpus`, with the records of the files; `pinned` where a path was given.
unfoldable pub load_corpus : Bool → List Incident → List Incident → List Incident
load_corpus pinned base learned =
    if pinned
    then base
    else base ++ keep (λ r. not (contains (map (λ (b : Incident). b.id) base) r.id)) learned

-- `get_record`
abbrev pub get_record : String → List Incident → Option Incident
get_record incident_id [] = none
get_record incident_id (r ∷ rs) = if r.id == incident_id then some r else get_record incident_id rs

abbrev close : String → List String → List String
close word words = if word == "" then words else word ∷ words

-- The word that a text begins with, and the words after it.
abbrev words_of : String → String × List String
words_of String.[] = (String.[], [])
words_of (String.◌∷◌ c s) =
    let (word, words) = words_of s in
    if is_alnum (code c) then (String.◌∷◌ c word, words) else (String.[], close word words)

-- `_tokenize`
unfoldable pub tokenize : String → List String
tokenize text = let (word, words) = words_of (lower_str text) in close word words

-- `_TAG_STOP`
abbrev pub tag_stop : List String
tag_stop =
    "the" ∷ "and" ∷ "for" ∷ "with" ∷ "that" ∷ "this" ∷ "from" ∷ "into" ∷ "was" ∷ "were" ∷ "has"
    ∷ "have" ∷ "not" ∷ "but" ∷ "its" ∷ "are" ∷ "out" ∷ "due" ∷ "via" ∷ "when" ∷ "read"
    ∷ "properties" ∷ "property" ∷ "cannot" ∷ "reading" ∷ "error" ∷ "errors" ∷ "service" ∷ []

abbrev pub tags_of_services : List String → List String → List String
tags_of_services tags [] = tags
tags_of_services tags (s ∷ ss) =
    let t = lower_str (strip s) in
    tags_of_services (if t == "" || contains tags t then tags else tags ++ t ∷ []) ss

abbrev is_tag : List String → String → Bool
is_tag tags tok =
    leb 4 (length (codes tok)) && (not (contains tag_stop tok) && not (contains tags tok))

abbrev pub tags_of_tokens : ℕ → List String → List String → List String
tags_of_tokens limit tags [] = tags
tags_of_tokens limit tags (tok ∷ toks) =
    let more = if is_tag tags tok then tags ++ tok ∷ [] else tags in
    let rest = tags_of_tokens limit more toks in if leb limit (length more) then more else rest

-- `data.get(key) or ""`
abbrev pub or_empty : Option String → String
or_empty none = ""
or_empty (some s) = s

-- `_tags_from`
unfoldable pub tags_from : ℕ → Report → List String
unfolding tokenize
tags_from limit r = take limit (
    tags_of_tokens limit (tags_of_services [] r.affected_services)
      (tokenize (or_empty r.root_cause)))

-- `f"{seq:03d}"`
abbrev three_digits : ℕ → String
three_digits n = (if ltb n 10 then "00" else if ltb n 100 then "0" else "") <> show_ℕ n

abbrev first_or_empty : List String → String
first_or_empty [] = ""
first_or_empty (s ∷ ss) = strip s

abbrev or_else : String → String → String
or_else s t = if s == "" then t else s

abbrev is_verified : FixVerdict → Bool
is_verified v = elim v [ verified ↦ true | _ ↦ false ]

abbrev resolution_of : Option Verification → String
resolution_of none = ""
resolution_of (some v) = if is_verified v.verdict then "Fix verified: " <> strip v.rationale else ""

unfoldable pub build_record : String → Report → String → ℕ → Incident
unfolding tags_from tokenize show_ℕ join
build_record request r date seq =
    let title = strip (or_else r.summary (or_else request "Investigated incident")) in
    let slug = or_else (join "-" (take 5 (tokenize title))) "incident" in
    record {
      id = take_chars 80 ("LEARNED-" <> (date <> ("-" <> (three_digits seq <> ("-" <> slug)))));
      title = take_chars 160 title;
      date = date;
      service = first_or_empty r.affected_services;
      tags = tags_from 8 r;
      summary = take_chars 600 (strip r.summary);
      root_cause = take_chars 400 (strip (or_empty r.root_cause));
      resolution = take_chars 400 (resolution_of r.verification);
      runbook = take 8 (map (λ a. take_chars 200 (strip a)) r.recommended_actions);
      learned = true;
    }

-- What records are compared by: `root_cause.strip().lower()`.
abbrev pub cause_key : String → String
cause_key cause = lower_str (strip cause)

abbrev pub keys : List Incident → List String
keys rs = map (λ (r : Incident). cause_key r.root_cause) rs

-- `learn_from_report`, on the learned records; `enabled` is the setting, and `writable` whether
-- `append_incident` can write the file.
unfoldable pub learn_from_report :
    (enabled writable : Bool)
    → (request : String) → Report
    → (date : String) → List Incident
    → List Incident × Option Incident
unfolding build_record
learn_from_report enabled writable request r date learned =
    let cause = or_empty r.root_cause in
    let rec = build_record request r date (length learned) in
    if not enabled
    then (learned, none)
    else if r.abstained || strip cause == ""
    then (learned, none)
    else if contains (keys learned) (cause_key cause)
    then (learned, none)
    else if writable
    then (learned ++ rec ∷ [], some rec)
    else (learned, none)
