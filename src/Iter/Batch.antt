-- ===== src/Iter/Batch.antt =====
-- pkg/iter/batch.go: `ReadBatch`. An iterator is the list of what it still gives, and whether it ends by
-- an error. The function that takes a batch carries a state.
pub mod Rounds
use phlare.Base.{
  ℕ, zero, suc, Bool, true, false, ◌&&◌, Option, none, some, List, [], ◌∷◌, if◌then◌else◌, leb,
  length, is_empty,
}
use phlare.Base.Outcome.{Outcome, ok, failed, panicked}

-- The loop goes on unless `fn` gives an error.
abbrev pub after_fn {ℓ} : {S : Type ℓ} → (S → Option (Outcome S)) → Outcome S → Option (Outcome S)
after_fn onward (ok s) = onward s
after_fn onward failed = some failed
after_fn onward panicked = some panicked

module _ {T : Type 0} where
  -- "build a batch of profiles", where it has `n` already: the batch, what is left of the iterator, and
  -- whether the iterator said that it ended.
  pub fill : ℕ → ℕ → List T → List T × List T × Bool
  fill size n [] = ([], [], true)
  fill size n (profile ∷ iterator) =
      let (batch, rest, ended) = fill size (suc n) iterator in
      if leb size (suc n) then (profile ∷ [], iterator, false) else (profile ∷ batch, rest, ended)

  module _ {S : Type 0} (batch_size : ℕ) (fn : List T → S → Outcome S) (fails : Bool) where
    -- the rest of a round, after a batch is built
    abbrev pub read_round : (S → Option (Outcome S)) → List T → Bool → S → Option (Outcome S)
    read_round onward batch ended s =
        if ended && fails
        then some failed
        else if is_empty batch
        then some (ok s)
        else after_fn onward (fn batch s)

    -- the loop, on fuel
    pub read_loop : ℕ → List T → S → Option (Outcome S)
    read_loop zero iterator s = none
    read_loop (suc fuel) iterator s =
        let (batch, rest, ended) = fill batch_size 0 iterator in
        read_round (read_loop fuel rest) batch ended s

    -- `ReadBatch`, on as much fuel as the iterator gives items and one more
    unfoldable pub read_batch : List T → S → Option (Outcome S)
    unfolding read_loop fill
    read_batch iterator s = read_loop (suc (length iterator)) iterator s
