-- ===== src/Chunking/Persistence/Outcomes.antt =====
-- The outcomes of persisted_chunk_ids of persistence.py.
use learning_system.Prelude.{
  ℕ, suc, ◌≡◌, refl, ◌⊎◌, inl, inr, Bool, true, false, List, [], ◌∷◌, ◌++◌, arith, ◌==◌, ==_iff,
  Bool-cases, length, take, all, Result, ok, err, ◌>>=◌, Text, is_empty, strip,
}
use learning_system.Chunking.Persistence.{
  PersistenceError, index_version_id_required, content_hash_invalid, persisted_identity,
  persisted_chunk_id, persisted_from, persisted_chunk_ids,
}

abbrev pub is_digest : Text → Bool
is_digest h = length h == 64

-- Ids numbered from `index`, one for each hash.
pub data AreIds (digest : Text → Text) (version : Text) : ℕ → List Text → List Text → Type 0 where
  done : (index : ℕ) → AreIds digest version index [] []
  more :
      (index : ℕ) (h : Text) (hs : List Text) (id : Text) (ids : List Text)
      → persisted_chunk_id digest version index h ≡ ok id
      → AreIds digest version (suc index) hs ids
      → AreIds digest version index (h ∷ hs) (id ∷ ids)

-- What a call for hashes numbered from `index` comes to.
pub data IsOutcome (digest : Text → Text) (version : Text) (index : ℕ) (hashes : List Text)
    : Result PersistenceError (List Text) → Type 0 where
  stored :
      (ids : List Text)
      → (is_empty hashes ≡ true) ⊎ (is_empty (strip version) ≡ false)
      → all is_digest hashes ≡ true
      → AreIds digest version index hashes ids
      → IsOutcome digest version index hashes (ok ids)
  no_version :
      is_empty hashes ≡ false
      → is_empty (strip version) ≡ true
      → IsOutcome digest version index hashes (err index_version_id_required)
  bad_hash :
      is_empty (strip version) ≡ false
      → all is_digest hashes ≡ false
      → IsOutcome digest version index hashes (err content_hash_invalid)

module _ (digest : Text → Text) (version : Text) where
  abbrev id_of : ℕ → Text → Text
  id_of index h =
      (99 ∷ 104 ∷ 117 ∷ 110 ∷ 107 ∷ 45 ∷ [])
      ++ take 32 (digest (persisted_identity version index h))

  index_is_positive : (index : ℕ) → (suc index == 0) ≡ false
  index_is_positive index = ground (arith, ==_iff (suc index) 0)

  persisted-no_version :
      (index : ℕ) (h : Text)
      → is_empty (strip version) ≡ true
      → persisted_chunk_id digest version index h ≡ err index_version_id_required
  unfolding persisted_chunk_id
  persisted-no_version index h blank = rw blank refl

  persisted-bad_hash :
      (index : ℕ) (h : Text)
      → is_empty (strip version) ≡ false
      → is_digest h ≡ false
      → persisted_chunk_id digest version (suc index) h ≡ err content_hash_invalid
  unfolding persisted_chunk_id
  persisted-bad_hash index h named bad = rw (named, index_is_positive index, bad) refl

  persisted-ok :
      (index : ℕ) (h : Text)
      → is_empty (strip version) ≡ false
      → is_digest h ≡ true
      → (id : Text) × (persisted_chunk_id digest version (suc index) h ≡ ok id)
  unfolding persisted_chunk_id
  persisted-ok index h named good =
      (id_of (suc index) h, rw (named, index_is_positive index, good) refl)

  -- A first hash that is accepted leaves the outcome to the others.
  accepted :
      (index : ℕ) (h : Text) (hs : List Text) (r : Result PersistenceError (List Text))
      → is_empty (strip version) ≡ false
      → is_digest h ≡ true
      → IsOutcome digest version (suc (suc index)) hs r
      → IsOutcome digest version
          (suc index)
          (h ∷ hs)
          (persisted_chunk_id digest version (suc index) h >>= λ id. r >>= λ ids. ok (id ∷ ids))
  accepted index h hs r named good (stored ids _ others chain) =
      let (id, e) = persisted-ok index h named good in
      rw e (
        stored (id ∷ ids) (inr named) (rw (good, others) refl)
          (more (suc index) h hs id ids e chain))
  accepted index h hs r named good (no_version _ blank) = cc
  accepted index h hs r named good (bad_hash _ bad) =
      let (id, e) = persisted-ok index h named good in rw e (bad_hash named (rw (good, bad) refl))

  persisted_from-IsOutcome :
      (index : ℕ) (hashes : List Text)
      → IsOutcome digest version
          (suc index)
          hashes
          (persisted_from digest version (suc index) hashes)
  unfolding persisted_from
  persisted_from-IsOutcome index [] = stored [] (inl refl) refl (done (suc index))
  persisted_from-IsOutcome index (h ∷ hs) = elim (Bool-cases (is_empty (strip version))) [
    | inl blank ↦ rw (persisted-no_version (suc index) h blank) (no_version refl blank)
    | inr named ↦ elim (Bool-cases (is_digest h)) [
      | inl good ↦ accepted index h hs _ named good (persisted_from-IsOutcome (suc index) hs)
      | inr bad ↦ rw (persisted-bad_hash index h named bad) (bad_hash named (rw bad refl))
    ]
  ]

-- persisted_chunk_ids has one of three outcomes, each with what it says of the arguments: an id for
-- each hash, numbered from 1, when there is no hash or the version is not blank, and every hash has
-- 64 characters; the error of the version when it is blank and there is a hash; the error of the
-- hash when the version is not blank and some hash does not have 64 characters.
pub persisted_chunk_ids-IsOutcome :
    (digest : Text → Text) (version : Text) (hashes : List Text)
    → IsOutcome digest version 1 hashes (persisted_chunk_ids digest version hashes)
unfolding persisted_chunk_ids
persisted_chunk_ids-IsOutcome digest version hashes =
    persisted_from-IsOutcome digest version 0 hashes
