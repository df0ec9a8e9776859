-- ===== src/Api/Signatures.antt =====
-- The signatures of webhooks (app/integrations/pagerduty.py, app/integrations/slack.py,
-- app/billing.py). `hmac` is HMAC-SHA256 of a key and a body, in hexadecimal, and `to_int` is
-- `int(text)`, `none` where it raises; a body is the text that it encodes.
use dev_ops_copilot.Base.{
  ℕ, ◌+◌, ◌<>◌, String, Bool, false, Option, none, some, List, [], ◌∷◌, ◌&&◌, ◌||◌, not, any_of,
  eqb, leb, ◌==◌, string_eq, if◌then◌else◌,
}
use dev_ops_copilot.Base.Int.{ℤ, pos, negsuc}
use dev_ops_copilot.Base.Dict.{Dict, get_or, insert}
use dev_ops_copilot.Base.Text.{strip}
use Prim.Native.Char.{Char, code}

abbrev add_char : Char → List String → List String
add_char c [] = []
add_char c (w ∷ ws) = String.◌∷◌ c w ∷ ws

-- `text.split(",")`
abbrev pub split_commas : String → List String
split_commas String.[] = String.[] ∷ []
split_commas (String.◌∷◌ c s) =
    let rest = split_commas s in if eqb (code c) 44 then String.[] ∷ rest else add_char c rest

-- What stands before and after the first `=`, where there is one.
abbrev with_char : Char → Option (String × String) → Option (String × String)
with_char c none = none
with_char c (some (k, v)) = some (String.◌∷◌ c k, v)

abbrev pub split_equals : String → Option (String × String)
split_equals String.[] = none
split_equals (String.◌∷◌ c s) =
    let rest = split_equals s in if eqb (code c) 61 then some (String.[], s) else with_char c rest

-- `dict(p.split("=", 1) for p in parts if "=" in p)`, onto a dict.
abbrev pub pairs_onto : Dict String String → List String → Dict String String
pairs_onto d [] = d
pairs_onto d (p ∷ ps) =
    pairs_onto (elim (split_equals p) [ none ↦ d | some (k, v) ↦ insert k v d ]) ps

-- `abs(now - t) <= window`, for a time that may be negative.
abbrev pub is_recent : ℕ → ℕ → ℤ → Bool
is_recent window now (pos t) = leb now (t + window) && leb t (now + window)
is_recent window now (negsuc t) = leb (now + (t + 1)) window

abbrev pub fresh_time : ℕ → ℕ → Option ℤ → Bool
fresh_time window now none = false
fresh_time window now (some t) = is_recent window now t

module _ (hmac : String → String → String) where
  -- `verify_signature` of app/integrations/pagerduty.py
  unfoldable pub verify_pagerduty : (secret body header : String) → Bool
  verify_pagerduty secret body header =
      not ((secret == "") || (header == ""))
      && any_of (λ part. "v1=" <> hmac secret body == strip part) (split_commas header)

  module _ (to_int : String → Option ℤ) where
    -- `verify_signature` of app/integrations/slack.py, at `now`
    unfoldable pub verify_slack : (now : ℕ) → (secret timestamp body signature : String) → Bool
    verify_slack now secret timestamp body signature =
        not ((secret == "") || ((timestamp == "") || (signature == "")))
        && (fresh_time 300 now (to_int timestamp)
            && ("v0=" <> hmac secret ("v0:" <> (timestamp <> (":" <> body))) == signature))

    abbrev pub parts_of : String → Dict String String
    parts_of header = pairs_onto [] (split_commas header)

    -- `verify_stripe_signature`, with `now` and the tolerance that the webhook's handler gives
    unfoldable pub verify_stripe : (now : ℕ) → (body header secret : String) → Bool
    verify_stripe now body header secret =
        let t = get_or "t" "" (parts_of header) in
        let v1 = get_or "v1" "" (parts_of header) in
        not ((secret == "") || (header == ""))
        && (not ((t == "") || (v1 == ""))
            && (fresh_time 300 now (to_int t) && (hmac secret (t <> ("." <> body)) == v1)))
