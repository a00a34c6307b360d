-- ===== src/Query/Tests.antt =====
-- Runs of the lexer, and its theorems at concrete texts.
use graphjin_slim.Base.{
  codes, ℕ, Bool, false, List, [], ◌∷◌, ◌≡◌, ◌≢◌, refl, Option, none, some, Bytes, Outcome, ok, err,
  panic, map,
}
use graphjin_slim.Query.Cursor.{
  MType, item_eof, item_name, item_on, item_args_open, item_args_close, item_obj_open,
  item_obj_close, item_colon, item_directive, item_spread, item_number_val, item_string_val,
  item_bool_val, LexError, empty_query, unrecognized, bad_number, Lexer, reset,
}
use graphjin_slim.Query.Lex.{lex}
use graphjin_slim.Query.Lex.Ends.{IsTokenized, lex_returns, lex-IsTokenized}
use graphjin_slim.Query.Unescape.{unescape_string_value}
use graphjin_slim.Query.Unescape.RoundTrip.{escape, unescape_string_value-escape}

abbrev no_wide : ℕ → Bool
no_wide r = false

abbrev tokens : Option (Outcome (Option LexError) Lexer) → List (MType × Bytes)
tokens (some (ok l)) = map (λ i. (i.type, i.val)) l.items
tokens _ = []

query_tokens :
    tokens (lex no_wide (codes "{ a(x: -1.5) @On TRUE ... }"))
    ≡ (item_obj_open, codes "{")
      ∷ (item_name, codes "a")
      ∷ (item_args_open, codes "(")
      ∷ (item_name, codes "x")
      ∷ (item_colon, codes ":")
      ∷ (item_number_val, codes "-1.5")
      ∷ (item_args_close, codes ")")
      ∷ (item_directive, [])
      ∷ (item_on, codes "on")
      ∷ (item_bool_val, codes "true")
      ∷ (item_spread, codes "...")
      ∷ (item_obj_close, codes "}")
      ∷ (item_eof, [])
      ∷ []
unfolding lex
query_tokens = refl

string_tokens :
    tokens (lex no_wide (codes "\"a\\\"b\" "))
    ≡ (item_string_val, codes "a\"b") ∷ (item_eof, []) ∷ []
unfolding lex
string_tokens = refl

-- A name that the input ends becomes the value of the end of the file.
name_at_end : tokens (lex no_wide (codes "a")) ≡ (item_eof, codes "a") ∷ []
unfolding lex
name_at_end = refl

-- The second of two backslashes escapes the quote behind it, so the string is not closed.
slash_at_end : tokens (lex no_wide (codes "\"a\\\\\" }")) ≡ (item_eof, codes "a\\\\\" }") ∷ []
unfolding lex
slash_at_end = refl

errors :
    (lex no_wide [] ≡ some (err (some empty_query)))
    × (lex no_wide (codes "1x") ≡ some (err (some (bad_number (codes "1x")))))
    × (lex no_wide (codes "&") ≡ some (err (some (unrecognized b'&'))))
unfolding lex
errors = (refl, refl, refl)

abbrev short_lexer : Lexer
short_lexer = record {
  input = codes "on ";
  pos = 3;
  start = 3;
  width = 0;
  items =
      record { type = item_on; pos = 0; val = codes "on"; line = 1 }
      ∷ record { type = item_eof; pos = 3; val = []; line = 1 }
      ∷ [];
  line = 1;
  error = none;
}

short_run : lex no_wide (codes "ON ") ≡ some (ok short_lexer)
unfolding lex
short_run = refl

lex-IsTokenized_example : IsTokenized 3 short_lexer.items
lex-IsTokenized_example = lex-IsTokenized no_wide (codes "ON ") short_lexer short_run

lex_returns_example :
    (lex no_wide (codes "{ \"") ≢ none)
    × (lex no_wide (codes "{ \"") ≢ some panic)
    × (lex no_wide (codes "{ \"") ≢ some (err none))
lex_returns_example = lex_returns no_wide (codes "{ \"")

unescape_string_value-escape_example :
    unescape_string_value (escape (codes "say \"a\\b\"\n")) ≡ codes "say \"a\\b\"\n"
unescape_string_value-escape_example = unescape_string_value-escape (codes "say \"a\\b\"\n")

reset_items : (reset short_lexer).items ≡ []
unfolding reset
reset_items = refl
