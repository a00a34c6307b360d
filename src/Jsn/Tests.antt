-- ===== src/Jsn/Tests.antt =====
-- Runs of `Validate`, and its theorems at concrete texts.
use graphjin_slim.Base.{codes, [], ◌∷◌, ◌++◌, ◌≡◌, ◌≢◌, refl, ◌↔◌, Bytes}
use graphjin_slim.Jsn.Validate.Strings.{found, validate_string, validate_key, tail_left}
use graphjin_slim.Jsn.Validate.StringExact.{validate_key_iff}
use graphjin_slim.Jsn.Validate.Numbers.{done, fail, out_of_fuel, validate_number}
use graphjin_slim.Jsn.Validate.Exponents.{NumberToken}
use graphjin_slim.Jsn.Validate.NumberExact.{validate_number_iff}
use graphjin_slim.Jsn.Validate.Grammar.{JsonText}
use graphjin_slim.Jsn.Validate.Complete.{validate_iff}
use graphjin_slim.Jsn.Validate.Total.{validate_total}
use graphjin_slim.Jsn.Validate.Unchecked.{validate-unchecked}
use graphjin_slim.Jsn.Validate.{validate}

abbrev sample : Bytes
sample = codes " {\"a\": [1, -2.5e3 , true], \"b\\n\": {}, \"c\": \"\\u00e9 x\"} "

sample_accepted : validate sample ≡ done []
unfolding validate
sample_accepted = refl

refused :
    (validate (codes "1 2") ≡ fail (codes "2") tail_left) × (validate (codes "[1,]") ≢ done [])
unfolding validate
refused = (refl, λ h. cc)

number_runs : validate_number (codes "-10.5e+7,") ≡ done (codes ",")
unfolding validate_number
number_runs = refl

string_runs : validate_string (codes "a\\\\\" : 1") ≡ found [] (codes " : 1")
unfolding validate_string
string_runs = refl

validate_iff_example : (validate sample ≡ done []) ↔ JsonText sample
validate_iff_example = validate_iff sample

sample-JsonText : JsonText sample
sample-JsonText = (validate_iff sample).0 sample_accepted

validate_total_example : validate (codes "[1,]") ≢ out_of_fuel
validate_total_example = validate_total (codes "[1,]")

validate_number-iff_example :
    (validate_number (codes "-10.5e+7,") ≡ done (codes ","))
    ↔ NumberToken (codes "-10.5e+7,") (codes ",")
validate_number-iff_example = validate_number_iff (codes "-10.5e+7,") (codes ",")

validate_key-iff_example :
    (validate_key (codes "a\\\\\" : 1") ≡ found [] (codes " : 1"))
    ↔ (validate_string (codes "a\\\\\" : 1") ≡ found [] (codes " : 1"))
validate_key-iff_example = validate_key_iff (codes "a\\\\\" : 1") [] (codes " : 1")

-- a byte 1 and a lone continuation byte
validate-unchecked_example :
    validate (b'"' ∷ ((1 ∷ 128 ∷ []) ++ (b'\\' ∷ b'n' ∷ b'"' ∷ []))) ≡ done []
validate-unchecked_example = validate-unchecked (1 ∷ 128 ∷ []) (refl, refl)
