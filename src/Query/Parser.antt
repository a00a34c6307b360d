-- ===== src/Query/Parser.antt =====
-- core/graph/parse.go: the parser's state and the methods that read its items. The position starts
-- at -1, so `at` is the position plus one, which is the index of the next item.
pub mod Values
pub mod Fields
pub mod Operations
pub mod Top
pub mod Schemas
pub mod Holds
pub mod Moves
pub mod Bounds
mod Tests
use graphjin_slim.Base.{
  ℕ, zero, suc, ◌+◌, ◌-◌, Bool, true, false, ◌&&◌, ◌||◌, List, [], ◌∷◌, ◌++◌, Option, none, some,
  Bytes, length, get_elem?, set, ◌==◌, if◌then◌else◌,
}
use graphjin_slim.Query.Cursor.{
  MType, item_error, item_eof, item_name, item_on, item_punctuator, item_args_open, item_args_close,
  item_list_open, item_list_close, item_obj_open, item_obj_close, item_colon, item_equals,
  item_required, item_directive, item_variable, item_spread, item_number_val, item_string_val,
  item_bool_val, Item, LexError, lower, lowercase_range,
}
use graphjin_slim.Query.Lex.{equals}
use graphjin_slim.Query.Ast.{Fragment}

pub record Parser : Type 0 where
  pub frags : List Fragment
  pub input : Bytes
  pub at : ℕ
  pub items : List Item
  pub json : Bool
  -- `err` is `errEOT`
  pub end_met : Bool

-- what an error says was expected
pub data Expected : Type 0 where
  an_operation an_open_brace a_field a_type a_value : Expected
  a_type_keyword a_type_name a_colon a_field_type a_closing_bracket : Expected

pub data ParseError : Type 0 where
  empty_text no_line : ParseError
  end_in_type : Bytes → ParseError
  lex_error : Option LexError → ParseError
  unexpected : Expected → ParseError
  in_fragment in_operation : ParseError → ParseError
  fragment_name fragment_on fragment_table fragment_open fragment_spread : ParseError
  not_defined : Bytes → ParseError
  not_closed too_many_fields too_many_args too_many_vars alias_name : ParseError
  arg_label arg_colon obj_label obj_colon directive_name bad_value : ParseError

-- What a method does: it returns a value, an error, or panics, or a loop is cut off by the model.
pub data Result {ℓ} (A : Type ℓ) : Type ℓ where
  ok : A → Result A
  fail : ParseError → Result A
  panic : Result A
  out_of_fuel : Result A

abbrev pub bind {ℓ κ} : {A : Type ℓ} {B : Type κ} → Result A → (A → Result B) → Result B
bind (ok a) f = f a
bind (fail e) f = fail e
bind panic f = panic
bind out_of_fuel f = out_of_fuel

-- the error that a caller makes of the error of a part
abbrev pub in_context {ℓ} : {A : Type ℓ} → (ParseError → ParseError) → Result A → Result A
in_context f (ok a) = ok a
in_context f (fail e) = fail (f e)
in_context f panic = panic
in_context f out_of_fuel = out_of_fuel

-- the number of a constant of `MType`
abbrev pub rank : MType → ℕ
rank item_error = 0
rank item_eof = 1
rank item_name = 2
rank item_on = 3
rank item_punctuator = 4
rank item_args_open = 5
rank item_args_close = 6
rank item_list_open = 7
rank item_list_close = 8
rank item_obj_open = 9
rank item_obj_close = 10
rank item_colon = 11
rank item_equals = 12
rank item_required = 13
rank item_directive = 14
rank item_variable = 15
rank item_spread = 16
rank item_number_val = 17
rank item_string_val = 18
rank item_bool_val = 19

abbrev pub type_in : MType → List MType → Bool
type_in t [] = false
type_in t (u ∷ us) = rank t == rank u || type_in t us

abbrev pub type_in? : Option Item → List MType → Bool
type_in? none types = false
type_in? (some i) types = type_in i.type types

unfoldable pub peek : List MType → Parser → Bool
peek types p = type_in? (get_elem? p.items p.at) types

abbrev pub equals_one : Bytes → List Bytes → Bool
equals_one val [] = false
equals_one val (v ∷ vs) = equals val v || equals_one val vs

unfoldable pub peek_val : List Bytes → Parser → Bool
unfolding equals
peek_val values p = elim (get_elem? p.items p.at) [
  | none ↦ false
  | some i ↦ equals_one i.val values
]

-- the position of `curr` in the text, which is 0 before the first item
unfoldable pub curr_pos : Parser → ℕ
curr_pos p = elim p.at [
  | zero ↦ 0
  | suc pos ↦ elim (get_elem? p.items pos) [ none ↦ 0 | some i ↦ i.pos ]
]

abbrev pub eof_item : Item
eof_item = record { type = item_eof; pos = 0; val = []; line = 0 }

abbrev pub next_with : Option Item → Parser → Item × Parser
next_with none p = (eof_item, record p { end_met = true })
next_with (some i) p = (i, record p { at = p.at + 1 })

unfoldable pub next : Parser → Item × Parser
next p = next_with (get_elem? p.items p.at) p

unfoldable pub ignore : Parser → Parser
unfolding next
ignore p = (next p).1

-- An error that names the next item panics if there is none: `tokErr`, `peekNext`.
unfoldable pub next_err {ℓ} : {A : Type ℓ} → ParseError → Parser → Result A
next_err e p = elim (get_elem? p.items p.at) [ none ↦ panic | some i ↦ fail e ]

abbrev pub tok_err {ℓ} : {A : Type ℓ} → Expected → Parser → Result A
tok_err expected = next_err (unexpected expected)

abbrev pub lower_all : Bytes → Bytes
lower_all [] = []
lower_all (c ∷ cs) = lower c ∷ lower_all cs

abbrev pub lower_item : Item → Item
lower_item i = record i { val = lower_all i.val }

-- `p.vall(p.next())`: the name of the next item in lower case, which is changed in place, in the
-- item and in the input that the item is a part of.
unfoldable pub next_lower : Parser → Bytes × Parser
unfolding next lowercase_range
next_lower p =
    let (i, q) = next p in
    (
      lower_all i.val,
      record q {
        input = lowercase_range i.pos (length i.val) q.input;
        items = set q.items p.at (lower_item i);
      },
    )
