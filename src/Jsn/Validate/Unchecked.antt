-- ===== src/Jsn/Validate/Unchecked.antt =====
-- The checks for control characters and UTF-8 see only what is behind the last escape.
use mathlib.Core.List.{append_assoc}
use graphjin_slim.Base.{[], ◌∷◌, ◌++◌, ◌≡◌, refl, sym, Bytes, arith}
use graphjin_slim.Base.Utf8.{valid_utf8}
use graphjin_slim.Jsn.Validate.Numbers.{done}
use graphjin_slim.Jsn.Validate.StringLaws.{IsPlain, plain, escape, simple}
use graphjin_slim.Jsn.Validate.Grammar.{text}
use graphjin_slim.Jsn.Validate.Complete.{validate_iff}
use graphjin_slim.Jsn.Validate.{skip_spaces, find_control, validate}

-- If no byte of `v` is a quote or a backslash, then `Validate` accepts the string with the bytes `v`
-- and an escaped `n` behind them, also where `v` has control characters or is no UTF-8.
pub validate-unchecked :
    (v : Bytes) → IsPlain v → validate (b'"' ∷ (v ++ (b'\\' ∷ b'n' ∷ b'"' ∷ []))) ≡ done []
unfolding skip_spaces valid_utf8 find_control
validate-unchecked v p =
    let s = b'"' ∷ (v ++ (b'\\' ∷ b'n' ∷ b'"' ∷ [])) in
    (validate_iff s).1 (record {
      behind = [];
      value = text (v ++ (b'\\' ∷ b'n' ∷ b'"' ∷ [])) (omega arith) refl (record {
        last = [];
        token = record {
          body = v ++ (b'\\' ∷ b'n' ∷ []);
          whole = sym (append_assoc v (b'\\' ∷ b'n' ∷ []) (b'"' ∷ []));
          form = escape v (b'n' ∷ []) [] refl p (simple b'n' refl) (plain refl (refl, refl));
        };
        utf8 = refl;
        no_control = refl;
      });
      ends = refl;
    })
