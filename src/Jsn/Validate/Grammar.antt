-- ===== src/Jsn/Validate/Grammar.antt =====
-- A grammar of JSON texts, as relations between a text and what is left behind a part of it.
use graphjin_slim.Base.{ℕ, ◌+◌, ◌≤◌, true, [], ◌∷◌, ◌++◌, ◌≡◌, none, Bytes}
use graphjin_slim.Base.Utf8.{valid_utf8}
use graphjin_slim.Jsn.Validate.StringExact.{StringToken}
use graphjin_slim.Jsn.Validate.Exponents.{NumberToken}
use graphjin_slim.Jsn.Validate.{
  max_depth, skip_spaces, find_control, true_text, false_text, null_text,
}

-- A string behind its opening quote, up to `t`. The bytes behind the last escape are valid UTF-8
-- and hold no control character.
pub record Quoted (s t : Bytes) : Type 0 where
  pub last : Bytes
  pub token : StringToken s last t
  pub utf8 : valid_utf8 last ≡ true
  pub no_control : find_control last ≡ none

-- A key and its colon; `t` is the text of the value.
pub record Key (s t : Bytes) : Type 0 where
  pub cs : Bytes
  pub behind : Bytes
  pub value : Bytes
  pub opens : s ≡ b'"' ∷ cs
  pub quoted : Quoted cs behind
  pub colon : skip_spaces behind ≡ b':' ∷ value
  pub starts : skip_spaces value ≡ t

pub data Word : Bytes → Type 0 where
  is_true : {w : Bytes} → w ≡ true_text → Word w
  is_false : {w : Bytes} → w ≡ false_text → Word w
  is_null : {w : Bytes} → w ≡ null_text → Word w

-- The first argument is the number of arrays and objects round the part.
mutual
  pub data Value : ℕ → Bytes → Bytes → Type 0 where
    object :
        {d : ℕ} {s t : Bytes} (cs : Bytes) → s ≡ b'{' ∷ cs → ObjectBody (d + 1) cs t → Value d s t
    array :
        {d : ℕ} {s t : Bytes} (cs : Bytes) → s ≡ b'[' ∷ cs → ArrayBody (d + 1) cs t → Value d s t
    text :
        {d : ℕ} {s t : Bytes} (cs : Bytes)
        → d ≤ max_depth
        → s ≡ b'"' ∷ cs
        → Quoted cs t
        → Value d s t
    word : {d : ℕ} {s t : Bytes} (w : Bytes) → d ≤ max_depth → Word w → s ≡ w ++ t → Value d s t
    number : {d : ℕ} {s t : Bytes} → d ≤ max_depth → NumberToken s t → Value d s t

  pub data ArrayBody : ℕ → Bytes → Bytes → Type 0 where
    empty_array : {d : ℕ} {s t : Bytes} → d ≤ max_depth → skip_spaces s ≡ b']' ∷ t → ArrayBody d s t
    full_array :
        {d : ℕ} {s t : Bytes} → d ≤ max_depth → Elements d (skip_spaces s) t → ArrayBody d s t

  pub data Elements : ℕ → Bytes → Bytes → Type 0 where
    last_element :
        {d : ℕ} {s t : Bytes} (u : Bytes)
        → Value d (skip_spaces s) u
        → skip_spaces u ≡ b']' ∷ t
        → Elements d s t
    more_elements :
        {d : ℕ} {s t : Bytes} (u v : Bytes)
        → Value d (skip_spaces s) u
        → skip_spaces u ≡ b',' ∷ v
        → Elements d v t
        → Elements d s t

  pub data ObjectBody : ℕ → Bytes → Bytes → Type 0 where
    empty_object :
        {d : ℕ} {s t : Bytes} → d ≤ max_depth → skip_spaces s ≡ b'}' ∷ t → ObjectBody d s t
    full_object :
        {d : ℕ} {s t : Bytes} → d ≤ max_depth → Members d (skip_spaces s) t → ObjectBody d s t

  pub data Members : ℕ → Bytes → Bytes → Type 0 where
    last_member :
        {d : ℕ} {s t : Bytes} (v u : Bytes)
        → Key (skip_spaces s) v
        → Value d v u
        → skip_spaces u ≡ b'}' ∷ t
        → Members d s t
    more_members :
        {d : ℕ} {s t : Bytes} (v u w : Bytes)
        → Key (skip_spaces s) v
        → Value d v u
        → skip_spaces u ≡ b',' ∷ w
        → Members d w t
        → Members d s t

-- A whole text: a value with white space round it.
pub record JsonText (s : Bytes) : Type 0 where
  pub behind : Bytes
  pub value : Value 0 (skip_spaces s) behind
  pub ends : skip_spaces behind ≡ []
