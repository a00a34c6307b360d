-- ===== src/Query/Parser/Top.antt =====
-- core/graph/parse.go: `Parse` and `ParseArgValue`.
use graphjin_slim.Base.{
  ℕ, zero, suc, ◌+◌, ◌*◌, Bool, true, false, ◌&&◌, ◌||◌, List, [], ◌∷◌, Option, none, some, Bytes,
  length, if◌then◌else◌,
}
use graphjin_slim.Base.{Outcome, ok as lexer_of, err as error_of, panic as panics}
use graphjin_slim.Query.Cursor.{item_eof, item_name, item_obj_open, LexError, Lexer}
use graphjin_slim.Query.Lex.{lex}
use graphjin_slim.Query.Ast.{field_keyword, Node, Field, Operation}
use graphjin_slim.Query.Parser.{
  Parser, empty_text, lex_error, Result, ok, fail, panic, out_of_fuel, bind, peek, peek_val, ignore,
}
use graphjin_slim.Query.Parser.Values.{parse_value}
use graphjin_slim.Query.Parser.Operations.{
  query_token, mutation_token, subscription_token, fragment_token, parse_fragment, parse_op,
}

-- Whether the item that is next may begin the operation.
unfoldable pub begins_op : Parser → Bool
unfolding peek peek_val
begins_op p =
    (peek (item_name ∷ []) p
      && peek_val (query_token ∷ mutation_token ∷ fragment_token ∷ subscription_token ∷ []) p)
    || peek (item_obj_open ∷ []) p

abbrev pub first_start : Option ℕ → Bool → ℕ → Option ℕ
first_start (some qs) begins at = some qs
first_start none true at = some at
first_start none false at = none

-- The first loop of `Parse`: it reads the fragments, and finds where the operation begins.
unfoldable pub top_loop : ℕ → Option ℕ → Parser → Result (Option ℕ × Parser)
unfolding peek peek_val ignore parse_fragment begins_op
top_loop zero qs p = out_of_fuel
top_loop (suc n) qs p = elim (peek (item_eof ∷ []) p) [
  | true ↦ ok (qs, ignore p)
  | false ↦ elim (peek (item_name ∷ []) p && peek_val (fragment_token ∷ []) p) [
    | true ↦ bind (parse_fragment n (ignore p)) λ q. top_loop n qs q
    | false ↦ top_loop n (first_start qs (begins_op p) p.at) (ignore p)
  ]
]

-- `reset`; a start that was not found is -1, which is the start of the items
abbrev pub reset_to : Option ℕ → Parser → Parser
reset_to none p = record p { at = 0 }
reset_to (some at) p = record p { at = at }

abbrev pub is_nil {ℓ} : {A : Type ℓ} → List A → Bool
is_nil [] = true
is_nil (_ ∷ _) = false

abbrev pub is_root : Option ℕ → Bool
is_root none = true
is_root (some _) = false

-- the last loop of `Parse`
unfoldable pub mark_keywords : List Field → List Field
mark_keywords [] = []
mark_keywords (f ∷ fs) =
    (if is_root f.parent && is_nil f.args && is_nil f.children
      then record f { type = field_keyword }
      else f)
    ∷ mark_keywords fs

unfoldable pub parse_items : ℕ → Lexer → Result Operation
unfolding top_loop parse_op mark_keywords
parse_items n l =
    let p : Parser = record {
      frags = [];
      input = l.input;
      at = 0;
      items = l.items;
      json = false;
      end_met = false;
    } in
    bind (top_loop n none p) λ (qs, q).
      bind (parse_op n (reset_to qs q)) λ op. ok (record op { fields = mark_keywords op.fields })

-- `lex` always returns (Query/Lex/Ends), so its `none` is not met.
unfoldable pub lexed : Option (Outcome (Option LexError) Lexer) → Result Lexer
lexed none = out_of_fuel
lexed (some (lexer_of l)) = ok l
lexed (some (error_of e)) = fail (lex_error e)
lexed (some panics) = panic

-- `Parse`, with the fuel for the loops of the parser
unfoldable pub parse : (ℕ → Bool) → ℕ → Bytes → Result Operation
unfolding lexed lex parse_items
parse is_wide n [] = fail empty_text
parse is_wide n (c ∷ cs) = bind (lexed (lex is_wide (c ∷ cs))) λ l. parse_items n l

-- `ParseArgValue`
unfoldable pub parse_arg_value : (ℕ → Bool) → Bytes → Bool → Result Node
unfolding lexed lex parse_value
parse_arg_value is_wide [] json = fail empty_text
parse_arg_value is_wide (c ∷ cs) json = bind (lexed (lex is_wide (c ∷ cs))) λ l.
    let p : Parser = record {
      frags = [];
      input = l.input;
      at = 0;
      items = l.items;
      json = json;
      end_met = false;
    } in
    bind (parse_value (2 * length l.items + 3) p) λ (value, q). ok value
