-- ===== src/Subscribe/Conflator/Keys.antt =====
-- core/subscribe/conflate.go: the key under which the buffer holds an aggregate.
use fabriq.Prelude.{◌≡◌, ◌≢◌, refl, ap, sym, ◌∙◌, [], ◌∷◌, ◌++◌, GoString, codes, arith}
use fabriq.Subscribe.Delta.{Delta}
use fabriq.Subscribe.Conflator.{key}

abbrev pub SameAggregate : Delta → Delta → Type 0
SameAggregate a b = (a.aggregate ≡ b.aggregate) × (a.agg_id ≡ b.agg_id)

abbrev pub HasNoSlash : GoString → Type 0
HasNoSlash [] = Unit
HasNoSlash (b ∷ bs) = (b ≢ 47) × HasNoSlash bs

-- The first slash ends the aggregate.
slash-inj :
    (xs ys us vs : GoString)
    → HasNoSlash xs
    → HasNoSlash ys
    → xs ++ 47 ∷ us ≡ ys ++ 47 ∷ vs
    → (xs ≡ ys) × (us ≡ vs)
slash-inj [] [] us vs h k e = (refl, ground (arith, e))
slash-inj [] (y ∷ ys) us vs h k e = absurd (k.0 (ground (arith, e)))
slash-inj (x ∷ xs) [] us vs h k e = absurd (h.0 (ground (arith, e)))
slash-inj (x ∷ xs) (y ∷ ys) us vs h k e =
    let r = slash-inj xs ys us vs h.1 k.1 (ground (arith, e)) in (ground (arith, e, r.0), r.1)

slashed : (xs us : GoString) → (xs ++ codes "/") ++ us ≡ xs ++ 47 ∷ us
slashed [] us = refl
slashed (x ∷ xs) us = ap (λ l. x ∷ l) (slashed xs us)

pub key-SameAggregate :
    (a b : Delta)
    → HasNoSlash a.aggregate
    → HasNoSlash b.aggregate
    → key a ≡ key b
    → SameAggregate a b
unfolding key
key-SameAggregate a b h k e =
    slash-inj a.aggregate b.aggregate a.agg_id b.agg_id h k
      (sym (slashed a.aggregate a.agg_id) ∙ (e ∙ slashed b.aggregate b.agg_id))

pub SameAggregate-key : (a b : Delta) → SameAggregate a b → key a ≡ key b
unfolding key
SameAggregate-key a b (e, f) = cc (e, f)
