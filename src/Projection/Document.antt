-- ===== src/Projection/Document.antt =====
-- core/projection/applier.go: the document of `SearchApplier`, column by column.
use fabriq.Prelude.{
  ◌≡◌, refl, not, ◌&&◌, List, [], ◌∷◌, any, Option, none, some, inl, inr, GoString, beq, beq_iff,
  lookup, lookup-insert, arith, Bool-cases, if◌then◌else◌,
}
use fabriq.Query.Value.{Value, text, int64, pos, Row}
use fabriq.Event.Envelope.{Envelope}
use fabriq.Command.Prepare.{column_id, column_tenant, column_version, column_scope}
use fabriq.Projection.Mutation.{EntitySpec}
use fabriq.Projection.Applier.{copy_field, restrict, search_doc}

module _ {F : Type 0} where
  abbrev pub declared : List GoString → GoString → Row F → Option (Value F)
  declared fields c props = if any (λ f. beq f c) fields then lookup c props else none

  copy_field-lookup :
      (f : GoString) (fs : List GoString) (props out : Row F) (c : GoString) (o : Option (Value F))
      → lookup f props ≡ o
      → lookup c out ≡ declared fs c props
      → lookup c (copy_field f o out) ≡ declared (f ∷ fs) c props
  copy_field-lookup f fs props out c none n ih = ground (arith, beq_iff f c)
  copy_field-lookup f fs props out c (some v) s ih = rw lookup-insert (ground (arith, beq_iff f c))

  restrict-lookup :
      (fields : List GoString) (props : Row F) (c : GoString)
      → lookup c (restrict fields props) ≡ declared fields c props
  unfolding restrict
  restrict-lookup [] props c = unfold lookup in refl
  restrict-lookup (f ∷ fs) props c =
      copy_field-lookup f fs props (restrict fs props) c (lookup f props) refl
        (restrict-lookup fs props c)

  -- What the document should hold in a column.
  abbrev pub expected : EntitySpec → Envelope → Row F → GoString → Option (Value F)
  expected spec env props c =
      if beq column_version c
      then some (int64 (pos env.version))
      else if not (beq env.scope_id []) && beq column_scope c
      then some (text env.scope_id)
      else if beq column_tenant c
      then some (text env.tenant_id)
      else if beq column_id c
      then some (text env.agg_id)
      else declared spec.search_fields c props

  -- A search document holds, whatever the payload says there, the event's version, tenant and id, and
  -- its scope where it has one; in a declared search field what the payload holds; in any other column
  -- nothing.
  pub search_doc-expected :
      (spec : EntitySpec) (env : Envelope) (props : Row F) (c : GoString)
      → lookup c (search_doc spec env props) ≡ expected spec env props c
  unfolding search_doc
  search_doc-expected spec env props c = elim (Bool-cases (beq env.scope_id [])) [
    | inl e ↦ rw (e, lookup-insert, lookup-insert, lookup-insert, restrict-lookup) refl
    | inr n ↦
        rw (n, lookup-insert, lookup-insert, lookup-insert, lookup-insert, restrict-lookup)
          (ground arith)
  ]
