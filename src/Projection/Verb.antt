-- ===== src/Projection/Verb.antt =====
-- core/projection/applier.go and core/registry/derive.go: `eventVerb` and `EventType`.
use fabriq.Prelude.{◌≡◌, ◌≢◌, refl, [], ◌∷◌, ◌++◌, GoString, codes, arith}
use fabriq.Event.Envelope.{event_type}
use fabriq.Projection.Applier.{after_dot, event_verb}

abbrev pub HasNoDot : GoString → Type 0
HasNoDot [] = Unit
HasNoDot (c ∷ s) = (c ≢ b'.') × HasNoDot s

after_dot-HasNoDot : (keep s : GoString) → HasNoDot s → after_dot keep s ≡ keep
unfolding after_dot
after_dot-HasNoDot keep [] h = refl
after_dot-HasNoDot keep (c ∷ s) (n, h) = ground (arith, after_dot-HasNoDot keep s h)

after_dot-dot :
    (keep entity verb : GoString)
    → HasNoDot verb
    → after_dot keep (entity ++ codes "." ++ verb) ≡ verb
unfolding after_dot
after_dot-dot keep [] verb h = after_dot-HasNoDot verb verb h
after_dot-dot keep (c ∷ entity) verb h = ground (
  arith,
  after_dot-dot keep entity verb h,
  after_dot-dot (entity ++ codes "." ++ verb) entity verb h,
)

-- `eventVerb` takes back from the type made by `EventType` the verb it was made with, whatever the
-- entity's name, if the verb has no dot.
pub event_verb-event_type :
    (entity verb : GoString) → HasNoDot verb → event_verb (event_type entity verb) ≡ verb
unfolding event_verb event_type
event_verb-event_type entity verb h = after_dot-dot (entity ++ codes "." ++ verb) entity verb h
