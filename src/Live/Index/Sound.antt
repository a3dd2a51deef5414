-- ===== src/Live/Index/Sound.antt =====
-- core/livequery/index.go: `Candidates` against the evaluator.
use fabriq.Prelude.{
  ◌≡◌, refl, ap, sym, ◌∙◌, inl, inr, Bool, true, false, ◌&&◌, ◌||◌, List, [], ◌∷◌, ◌++◌, any,
  Option, none, some, GoString, beq, beq_iff, beq_refl, lookup, arith, Bool-cases, Option-cases,
}
use fabriq.Query.Value.{Runtime, Value, null, Operand, one, many, other, Row}
use fabriq.Query.Filter.{Op, eq, in_set, cond, Conds, end, more}
use fabriq.Match.Compare.{equal, same_value}
use fabriq.Match.Predicate.{in_slice, eval_value, eval_set_string, eval_leaf, eval_all}
use fabriq.Live.Index.{Gate, norm_val, gates_of, to_any_slice, leaf_gates, equality_columns}
use fabriq.Live.Index.Keys.{is_time, equal-key}

module _ {F : Type 0} ⦃rt : Runtime F⦄ where
  -- Some gate of the column takes the value.
  abbrev pub takes : List (Gate F) → GoString → Value F → Bool
  takes [] c raw = false
  takes (g ∷ gs) c raw = beq g.column c && same_value (norm_val raw) g.value || takes gs c raw

  abbrev pub gated : List (Gate F) → GoString → Bool
  gated [] c = false
  gated (g ∷ gs) c = beq g.column c || gated gs c

  takes-append :
      (gs hs : List (Gate F)) (c : GoString) (raw : Value F)
      → takes (gs ++ hs) c raw ≡ (takes gs c raw || takes hs c raw)
  takes-append [] hs c raw = refl
  takes-append (g ∷ gs) hs c raw = ground (arith, takes-append gs hs c raw)

  gated-append :
      (gs hs : List (Gate F)) (c : GoString) → gated (gs ++ hs) c ≡ (gated gs c || gated hs c)
  gated-append [] hs c = refl
  gated-append (g ∷ gs) hs c = ground (arith, gated-append gs hs c)

  gated-gates_of : (c k : GoString) (vs : List (Value F)) → gated (gates_of c vs) k ≡ true → c ≡ k
  gated-gates_of c k [] h = absurd (ground arith)
  gated-gates_of c k (v ∷ vs) h = ground (arith, beq_iff c k, gated-gates_of c k vs)

  takes-gates_of :
      (c : GoString) (raw : Value F) (vs : List (Value F))
      → is_time raw ≡ false
      → any (equal raw) vs ≡ true
      → takes (gates_of c vs) c raw ≡ true
  takes-gates_of c raw [] t h = absurd (ground arith)
  takes-gates_of c raw (v ∷ vs) t h =
      ground (arith, beq_refl c, equal-key raw v t, takes-gates_of c raw vs t)

  -- No instant in the row.
  abbrev pub Timeless : Row F → Type 0
  Timeless row = (c : GoString) (raw : Value F) → lookup c row ≡ some raw → is_time raw ≡ false

  abbrev pub Taken : Row F → List (Gate F) → GoString → Type 0
  Taken row gs c = (raw : Value F) × (lookup c row ≡ some raw) × (takes gs c raw ≡ true)

  eq-passes :
      (x : Value F) (o : Option (Value F))
      → eval_leaf eq (one x) o ≡ true
      → (raw : Value F) × (o ≡ some raw) × (equal raw x ≡ true)
  unfolding eval_leaf eval_value
  eq-passes x none h = absurd (ground arith)
  eq-passes x (some null) h = absurd (ground arith)
  eq-passes x (some raw) h = (raw, refl, h)

  in-passes :
      (operand : Operand F) (o : Option (Value F))
      → eval_leaf in_set operand o ≡ true
      → (raw : Value F) × (o ≡ some raw) × (in_slice raw operand ≡ true)
  unfolding eval_leaf eval_value eval_set_string
  in-passes operand none h = absurd (ground arith)
  in-passes operand (some null) h = absurd (ground arith)
  in-passes operand (some raw) h = (raw, refl, h)

  in_slice-to_any :
      (raw : Value F) (operand : Operand F) (c k : GoString)
      → gated (gates_of c (to_any_slice operand)) k ≡ true
      → in_slice raw operand ≡ true
      → any (equal raw) (to_any_slice operand) ≡ true
  unfolding in_slice
  in_slice-to_any raw (one x) c k g h = absurd (ground arith)
  in_slice-to_any raw (many other vs) c k g h = absurd (ground arith)
  in_slice-to_any raw (many t vs) c k g h = h

  -- A leaf whose gates are known and which passes takes the value of the row.
  gates-Taken :
      (row : Row F) (c k : GoString) (vs : List (Value F)) (raw : Value F)
      → Timeless row
      → lookup c row ≡ some raw
      → any (equal raw) vs ≡ true
      → gated (gates_of c vs) k ≡ true
      → Taken row (gates_of c vs) k
  gates-Taken row c k vs raw t l a g =
      let same : c ≡ k = gated-gates_of c k vs g in
      coe 0 1 (i. Taken row (gates_of c vs) (same i))
        (raw, l, takes-gates_of c raw vs (t c raw l) a)

  no-gates :
      (row : Row F) (k : GoString) (gs : List (Gate F))
      → [] ≡ gs
      → gated gs k ≡ true
      → Taken row gs k
  no-gates row k [] e g = absurd (ground arith)
  no-gates row k (x ∷ gs) e g = absurd (ground arith)

  leaf-Taken :
      (row : Row F) (c k : GoString) (op : Op) (v : Operand F) (gs : List (Gate F))
      → Timeless row
      → leaf_gates c op v ≡ some gs
      → eval_leaf op v (lookup c row) ≡ true
      → gated gs k ≡ true
      → Taken row gs k
  unfolding leaf_gates
  leaf-Taken row c k eq (one x) gs t l e g =
      let (raw, found, same) = eq-passes x (lookup c row) e in
      let known : gs ≡ gates_of c (x ∷ []) = ground arith in
      rw known (
        gates-Taken row c k (x ∷ []) raw t found (ground arith)
          (ap (λ hs. gated hs k) (sym known) ∙ g))
  leaf-Taken row c k eq (many u xs) gs t l e g = absurd (ground arith)
  leaf-Taken row c k in_set v gs t l e g =
      let (raw, found, inside) = in-passes v (lookup c row) e in
      let known : gs ≡ gates_of c (to_any_slice v) = ground arith in
      let reached : gated (gates_of c (to_any_slice v)) k ≡ true =
        ap (λ hs. gated hs k) (sym known) ∙ g in
      rw known (
        gates-Taken row c k (to_any_slice v) raw t found (in_slice-to_any raw v c k reached inside)
          reached)
  leaf-Taken row c k _ v gs t l e g = no-gates row k gs (ground arith) g

  Taken-append :
      (row : Row F) (gs hs : List (Gate F)) (k : GoString)
      → (gated gs k ≡ true → Taken row gs k)
      → (gated hs k ≡ true → Taken row hs k)
      → gated (gs ++ hs) k ≡ true
      → Taken row (gs ++ hs) k
  Taken-append row gs hs k f h g = elim (Bool-cases (gated gs k)) [
    | inl a ↦ let (raw, l, t) = f a in (raw, l, ground (arith, takes-append gs hs k raw))
    | inr b ↦
        let (raw, l, t) = h (ground (arith, gated-append gs hs k)) in
        (raw, l, ground (arith, takes-append gs hs k raw))
  ]

  -- A row that passes a filter is taken, in every column that the filter has a gate in.
  pub filter-Taken :
      (row : Row F) (k : GoString) (w : Conds F) (gs : List (Gate F))
      → Timeless row
      → equality_columns w ≡ some gs
      → eval_all rt w row ≡ true
      → gated gs k ≡ true
      → Taken row gs k
  unfolding equality_columns eval_all
  filter-Taken row k end gs t q e g = no-gates row k gs (ground arith) g
  filter-Taken row k (more (cond c op v (more s ss)) cs) gs t q e g =
      filter-Taken row k cs gs t q (ground arith) g
  filter-Taken row k (more (cond c op v end) cs) gs t q e g =
      elim (Option-cases (leaf_gates c op v)) [
        | inl n ↦ absurd (ground arith)
        | inr (ls, l) ↦ elim (Option-cases (equality_columns cs)) [
          | inl n ↦ absurd (ground arith)
          | inr (rest, r) ↦
              let leaf : eval_leaf op v (lookup c row) ≡ true = ground arith in
              let later : eval_all rt cs row ≡ true = ground arith in
              let known : gs ≡ ls ++ rest = ground arith in
              rw known (
                Taken-append row ls rest k (leaf-Taken row c k op v ls t l leaf)
                  (filter-Taken row k cs rest t r later) (ap (λ hs. gated hs k) (sym known) ∙ g))
        ]
      ]
