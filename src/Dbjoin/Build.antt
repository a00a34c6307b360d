-- ===== src/Dbjoin/Build.antt =====
-- core/dbjoin/dbjoin.go: `BuildDatabaseQuery` as a whole, on what `Parse` returns.
use graphjin_slim.Base.{
  ℕ, suc, Bool, true, List, [], ◌≡◌, refl, ap, ◌∙◌, ◌↔◌, inl, inr, none, Bytes, length, elem, arith,
  Option-cases,
}
use graphjin_slim.Query.Ast.{Operation}
use graphjin_slim.Query.Parser.{Result, ok, fail, panic, out_of_fuel, bind}
use graphjin_slim.Query.Parser.Top.{parse}
use graphjin_slim.Query.Forest.{IsForest}
use graphjin_slim.Query.Forest.Parse.{parse-IsParsed}
use graphjin_slim.Dbjoin.{write_operation, write_fields, keep_roots, rebuild, build_database_query}
use graphjin_slim.Dbjoin.Marks.{
  AtOrBelow, StoresBelow, IsForest-Placed, roots_allowed, keep_roots-StoresBelow,
  keep_roots_returns,
}
use graphjin_slim.Dbjoin.Writes.{write_fields_returns}
use graphjin_slim.Dbjoin.Written.{kept_children, spaced, Written, write_fields-Written}

rebuild_returns :
    (roots : List Bytes) (op : Operation)
    → IsForest op.fields
    → (text : Bytes) × (rebuild roots op ≡ ok text)
unfolding rebuild
rebuild_returns roots op h =
    let placed = IsForest-Placed op.fields h in
    let (keep, e) =
      keep_roots_returns (suc (length op.fields)) roots op.fields op.fields [] placed (omega arith)
        (omega arith) in
    let (text, k) =
      write_fields_returns (suc (length op.fields)) op.fields keep none placed (omega arith)
        (omega arith) in
    (write_operation op text, rw (rebuild, e, k) refl)

-- On every query that `Parse` returns an operation of, `BuildDatabaseQuery` returns a text: its
-- recursions, over the fields below the named root fields, end, with a depth of one more than there
-- are fields.
pub build_database_query_returns :
    (is_wide : ℕ → Bool) (n : ℕ) (raw : Bytes) (roots : List Bytes) (op : Operation)
    → parse is_wide n raw ≡ ok op
    → (text : Bytes) × (build_database_query is_wide n raw roots ≡ ok text)
unfolding build_database_query
build_database_query_returns is_wide n raw roots op e =
    let (text, k) = rebuild_returns roots op (parse-IsParsed is_wide n raw op e).fields in
    (text, rw (build_database_query, e) k)

-- The text is that of an operation of whose fields exactly those are kept that are one of the named
-- root fields or below one: each of them stands in it once, in its order and under its parent.
pub record IsRestriction (roots : List Bytes) (op : Operation) (text : Bytes) : Type 0 where
  pub keep : List ℕ
  pub exact : (i : ℕ) → (elem i keep ≡ true) ↔ AtOrBelow op.fields (roots_allowed roots op.fields) i
  pub texts : List Bytes
  pub written : Written keep op.fields (kept_children keep none op.fields) texts
  pub text_is : text ≡ write_operation op (spaced texts)

exactly :
    (op : Operation) (ids out : List ℕ)
    → StoresBelow op.fields ids [] out
    → (i : ℕ) → (elem i out ≡ true) ↔ AtOrBelow op.fields ids i
exactly op ids out h i = (λ e. elim ((h i).0 e) [ inl k ↦ cc | inr b ↦ b ], λ b. (h i).1 (inr b))

rebuilt :
    (op : Operation) (text fields_text : Bytes)
    → ok (write_operation op fields_text) ≡ ok text
    → text ≡ write_operation op fields_text
rebuilt op text fields_text e = cc

rebuild-IsRestriction :
    (roots : List Bytes) (op : Operation) (text : Bytes)
    → rebuild roots op ≡ ok text
    → IsRestriction roots op text
unfolding rebuild
rebuild-IsRestriction roots op text e =
    let n : ℕ = suc (length op.fields) in
    elim (Option-cases (keep_roots n roots op.fields op.fields [])) [
      | inl k ↦ cc
      | inr (keep, k) ↦ elim (Option-cases (write_fields n op.fields keep none)) [
        | inl c ↦ cc
        | inr (fields_text, c) ↦
            let (texts, w, at) = write_fields-Written n op.fields keep none fields_text c in
            record {
              keep = keep;
              exact =
                  exactly op (roots_allowed roots op.fields) keep
                    (keep_roots-StoresBelow n roots op.fields op.fields [] keep k);
              texts = texts;
              written = w;
              text_is =
                  rebuilt op text fields_text (rw (rebuild, k, c) at e)
                  ∙ ap (write_operation op) at;
            }
      ]
    ]

-- A text that `BuildDatabaseQuery` returns is written from an operation which `Parse` returned, with
-- exactly these fields: those whose id is that of a root field with a listed name or is reached from
-- one through children. Each kept field at the root or under a kept parent is written once, in the
-- order of the fields, with a space between two: its head, and its kept children in braces behind it
-- if there are any. Of the head of a field and of the front of the text it is only said that they are
-- what the code writes for that field and that operation.
pub build_database_query-IsRestriction :
    (is_wide : ℕ → Bool) (n : ℕ) (raw : Bytes) (roots : List Bytes) (text : Bytes)
    → build_database_query is_wide n raw roots ≡ ok text
    → (op : Operation) × (parse is_wide n raw ≡ ok op) × IsRestriction roots op text
unfolding build_database_query
build_database_query-IsRestriction is_wide n raw roots text e = go (parse is_wide n raw) e
  where
    go :
        (r : Result Operation)
        → bind r (λ op. rebuild roots op) ≡ ok text
        → (op : Operation) × (r ≡ ok op) × IsRestriction roots op text
    go (ok op) e = (op, refl, rebuild-IsRestriction roots op text e)
    go (fail w) e = cc
    go panic e = cc
    go out_of_fuel e = cc
