-- ===== src/Shard/Directory/Fresh.antt =====
-- adapters/shard/catalogdir.go: how old an answer of `Shard` is, and which answers are remembered.
use mathlib.Core.Path.{subst}
use fabriq.Prelude.{
  ℕ, ◌+◌, ◌≤◌, ◌<◌, ◌≡◌, refl, sym, ap, ◌∙◌, inl, inr, true, ◌&&◌, List, [], ◌∷◌, Option, none,
  some, GoString, arith, Bool-cases, lookup, lookup-insert, beq, ltb, Result, if◌then◌else◌,
}
use fabriq.Catalog.Entry.{Entry, Error}
use fabriq.Shard.Directory.{
  Cached, CatalogDirectory, resolve, cacheable, fresh, look, remember, answered, shard, Read, after,
}
use fabriq.Shard.Directory.Resolved.{Routes, resolve-Routes}

-- The latest of the stores, listed the latest first, that kept an answer about the tenant.
abbrev pub last_kept : GoString → GoString → List Read → Option Read
last_kept floor tenant [] = none
last_kept floor tenant (r ∷ rs) =
    if beq r.tenant tenant && cacheable (resolve floor r.read)
    then some r
    else last_kept floor tenant rs

-- What a call answers that looks at the time `now`, after the stores `rs`.
pub data Answers (ttl : ℕ) (floor tenant : GoString) (rs : List Read) (read : Result Error Entry)
    (now : ℕ) (out : Result Error GoString) : Type 0 where
  remembered :
      (r : Read)
      → last_kept floor tenant rs ≡ some r
      → now < r.later + ttl
      → cacheable out ≡ true
      → Routes floor r.read out
      → Answers ttl floor tenant rs read now out
  asked :
      ((r : Read) → last_kept floor tenant rs ≡ some r → r.later + ttl ≤ now)
      → Routes floor read out
      → Answers ttl floor tenant rs read now out

remember-lookup :
    (d : CatalogDirectory) (k tenant : GoString) (a : Result Error GoString) (now : ℕ)
    → lookup tenant (remember d k a now).cache ≡ (
        if beq k tenant && cacheable a
        then some (record { answer = a; exp = now + d.ttl })
        else lookup tenant d.cache)
unfolding remember
remember-lookup d k tenant a now = elim (Bool-cases (cacheable a)) [
  | inr c ↦ rw c (ground arith)
  | inl c ↦
      rw c
        (ground (arith, lookup-insert k tenant (record { answer = a; exp = now + d.ttl }) d.cache))
]

remember-ttl :
    (d : CatalogDirectory) (k : GoString) (a : Result Error GoString) (now : ℕ)
    → ((remember d k a now).ttl ≡ d.ttl) × ((remember d k a now).min_version ≡ d.min_version)
unfolding remember
remember-ttl d k a now = elim (Bool-cases (cacheable a)) [
  | inr c ↦ rw c (refl, refl)
  | inl c ↦ rw c (refl, refl)
]

after-ttl :
    (d : CatalogDirectory) (rs : List Read)
    → ((after d rs).ttl ≡ d.ttl) × ((after d rs).min_version ≡ d.min_version)
unfolding after
after-ttl d [] = (refl, refl)
after-ttl d (r ∷ rs) =
    let b : CatalogDirectory = after d rs in
    let s = remember-ttl b r.tenant (resolve b.min_version r.read) r.later in
    (s.0 ∙ (after-ttl d rs).0, s.1 ∙ (after-ttl d rs).1)

-- The row that the store `r` wrote.
abbrev row_of : ℕ → GoString → Option Read → Option Cached
row_of ttl floor none = none
row_of ttl floor (some r) = some (record { answer = resolve floor r.read; exp = r.later + ttl })

-- The row after the store `r`, where it was `old`.
abbrev written : ℕ → GoString → GoString → Read → Option Cached → Option Cached
written ttl floor tenant r old =
    if beq r.tenant tenant && cacheable (resolve floor r.read)
    then row_of ttl floor (some r)
    else old

written-row_of :
    (ttl : ℕ) (floor tenant : GoString) (r : Read) (o : Option Read)
    → written ttl floor tenant r (row_of ttl floor o)
      ≡ row_of ttl floor
          (if beq r.tenant tenant && cacheable (resolve floor r.read) then some r else o)
written-row_of ttl floor tenant r o =
    elim (Bool-cases (beq r.tenant tenant && cacheable (resolve floor r.read))) [
      | inl k ↦ rw k refl
      | inr k ↦ rw k refl
    ]

after-lookup :
    (d : CatalogDirectory) (tenant : GoString) (rs : List Read)
    → d.cache ≡ []
    → lookup tenant (after d rs).cache
      ≡ row_of d.ttl d.min_version (last_kept d.min_version tenant rs)
unfolding after
after-lookup d tenant [] e = ap (lookup tenant) e ∙ unfold lookup in refl
after-lookup d tenant (r ∷ rs) e =
    let b : CatalogDirectory = after d rs in
    remember-lookup b r.tenant tenant (resolve b.min_version r.read) r.later
    ∙ ap (λ f. written b.ttl f tenant r (lookup tenant b.cache)) (after-ttl d rs).1
    ∙ ap (λ t. written t d.min_version tenant r (lookup tenant b.cache)) (after-ttl d rs).0
    ∙ ap (written d.ttl d.min_version tenant r) (after-lookup d tenant rs e)
    ∙ written-row_of d.ttl d.min_version tenant r (last_kept d.min_version tenant rs)

last_kept-cacheable :
    (floor tenant : GoString) (rs : List Read) (r : Read)
    → last_kept floor tenant rs ≡ some r
    → cacheable (resolve floor r.read) ≡ true
last_kept-cacheable floor tenant [] r h = absurd (ground arith)
last_kept-cacheable floor tenant (s ∷ rs) r h =
    elim (Bool-cases (beq s.tenant tenant && cacheable (resolve floor s.read))) [
      | inl k ↦ ground arith
      | inr k ↦ last_kept-cacheable floor tenant rs r (ground arith)
    ]

abbrev later_of : Option Read → ℕ
later_of none = 0
later_of (some r) = r.later

module _ (d : CatalogDirectory) (empty : d.cache ≡ []) (tenant : GoString) (rs : List Read)
    (read : Result Error Entry) (now later : ℕ) where
  looked :
      (b : CatalogDirectory) (o : Option Read)
      → last_kept d.min_version tenant rs ≡ o
      → Answers d.ttl d.min_version tenant rs read now
          (answered b tenant
            (resolve d.min_version read)
            later
            (fresh now (row_of d.ttl d.min_version o))).0
  unfolding answered
  looked b none q = Answers.asked (λ r h. absurd (ground arith)) (resolve-Routes d.min_version read)
  looked b (some r) q = elim (Bool-cases (ltb now (r.later + d.ttl))) [
    | inl l ↦ rw l (
        Answers.remembered r q (ground arith) (last_kept-cacheable d.min_version tenant rs r q)
          (resolve-Routes d.min_version r.read))
    | inr l ↦ rw l (
        Answers.asked (λ s h. ground (arith, ap later_of (sym q ∙ h)))
          (resolve-Routes d.min_version read))
  ]

  -- An answer of `Shard` is the directory's reading of what the catalog says now, or of what it said at
  -- the last call whose answer was kept, less than a TTL ago; it asks the catalog only if there is no
  -- such call. What is kept is no transport failure and no answer of a lagging replica's refusal.
  pub shard-Answers :
      Answers d.ttl d.min_version tenant rs read now (shard (after d rs) tenant read now later).0
  unfolding shard look
  shard-Answers =
      subst (λ w. A (answered b tenant (resolve b.min_version read) later (fresh now w)).0)
        (sym (after-lookup d tenant rs empty))
        (subst
          (λ f.
            A
              (answered b tenant (resolve f read) later
                (fresh now (row_of d.ttl d.min_version (last_kept d.min_version tenant rs)))).0)
          (sym (after-ttl d rs).1) (looked b (last_kept d.min_version tenant rs) refl))
    where
      b : CatalogDirectory
      b = after d rs

      A : Result Error GoString → Type 0
      A = Answers d.ttl d.min_version tenant rs read now
