-- ===== src/Queue/Crash.antt =====
-- A process that dies inside posixipc_queue_put or posixipc_queue_get has made some of the stores.
-- The next owner of the put lock runs posixipc_queue_recover.
pub mod Blocks
pub mod Getting
use posixipc.Prelude.{
  ℕ, zero, suc, ◌+◌, ◌-◌, ◌*◌, ◌%◌, ◌≤◌, ◌<◌, ◌≡◌, ◌≢◌, refl, sym, ap, ◌∙◌, arith, inl, inr, some,
  List, [], ◌∷◌, ◌++◌, length, take, eq-cases, store, lt-cases, leb, if◌then◌else◌, true, false,
}
use native.Mathlib.Nat.{mod-eq_of_lt}
use posixipc.Codes.{success}
use posixipc.Queue.{
  View, Memory, empty, ready, reserved_put, reserved_get, settle, read_bytes, put_stores, run_put,
  get_stores, run_get, recover,
}
use posixipc.Queue.Ring.{slot_at, window, item_at, contents, IsView, IsRing}
use posixipc.Queue.Put.{put_done, put_done-others, put_done-contents}
use posixipc.Queue.Recover.Contiguous.{HoldsBlock, recover-block}
use posixipc.Queue.Crash.Blocks.{ring-HoldsBlock, HoldsBlock-ext, HoldsBlock-grow}

not_committed : (k : ℕ) → k < 3 → leb 3 k ≡ false
not_committed k h = ground arith

committed : (k : ℕ) → 3 ≤ k → leb 3 k ≡ true
committed k h = ground arith

-- what is asked of the recovered memory: success, a ring, and these items
abbrev pub RecoversTo : View → Memory → List (List ℕ) → Type 0
RecoversTo v m q =
    let (rc, m') = recover (some v) m in (rc ≡ success) × IsRing v m' × (contents v m' ≡ q)

settle-reserved_put : (st : ℕ) → st ≡ reserved_put → settle st ≡ empty
unfolding settle
settle-reserved_put st e = ground arith

pub settle-reserved_get : (st : ℕ) → st ≡ reserved_get → settle st ≡ ready
unfolding settle
settle-reserved_get st e = ground arith

pub settle-ready : (st : ℕ) → st ≡ ready → settle st ≡ ready
unfolding settle
settle-ready st e = ground arith

pub settle-empty : (st : ℕ) → st ≡ empty → settle st ≡ empty
unfolding settle
settle-empty st e = ground arith

module _ {v : View} {m : Memory} (w : IsView v) (r : IsRing v m)
    (flat : m.ctrl.head + m.ctrl.count < v.depth) where
  at_tail : m.ctrl.tail ≡ m.ctrl.head + m.ctrl.count
  at_tail = r.tail_at ∙ mod-eq_of_lt flat

  tail_settled : settle (m.state m.ctrl.tail) ≡ empty
  tail_settled =
      settle-empty (m.state m.ctrl.tail)
        (ap m.state r.tail_at ∙ r.free m.ctrl.count (omega arith) (omega arith))

  pub keeps :
      (mk : Memory)
      → ((j : ℕ) → j < v.depth → settle (mk.state j) ≡ settle (m.state j))
      → window v.depth (item_at v mk) m.ctrl.head 0 m.ctrl.count ≡ contents v m
      → RecoversTo v mk (contents v m)
  keeps mk e items =
      let (ok, ring, c) =
        recover-block mk m.ctrl.head m.ctrl.count w
          (HoldsBlock-ext mk.state e (ring-HoldsBlock r (omega arith))) in
      (ok, ring, c ∙ items)

  module _ (bytes : List ℕ) (len : length bytes ≡ v.item_size) where
    adds :
        (mk : Memory)
        → mk.payload ≡ (put_done v m bytes).payload
        → mk.state m.ctrl.tail ≡ ready
        → ((j : ℕ) → j ≢ m.ctrl.tail → mk.state j ≡ m.state j)
        → RecoversTo v mk (contents v m ++ bytes ∷ [])
    adds mk paid tail_ready others =
        let (ok, ring, c) = recover-block mk m.ctrl.head (m.ctrl.count + 1) w grown in
        (ok, ring, c ∙ same_payload ∙ put_done-contents w r bytes (omega arith) len)
      where
        grown : HoldsBlock v.depth m.ctrl.head (m.ctrl.count + 1) mk.state
        grown =
            HoldsBlock-grow mk.state flat
              (settle-ready (mk.state (m.ctrl.head + m.ctrl.count))
                (ap mk.state (sym at_tail) ∙ tail_ready))
              (λ j p ne. ap settle (others j (omega (arith, at_tail))))
              (ring-HoldsBlock r (omega arith))

        same_payload :
            window v.depth (item_at v mk) m.ctrl.head 0 (m.ctrl.count + 1)
            ≡ contents v (put_done v m bytes)
        same_payload =
            ap
              (λ (p : ℕ → ℕ).
                window v.depth (λ i. read_bytes p (i * v.stride) v.item_size) m.ctrl.head 0
                  (m.ctrl.count + 1))
              paid

    reserved_keeps :
        (j : ℕ)
        → j < v.depth
        → settle (store m.state m.ctrl.tail reserved_put j) ≡ settle (m.state j)
    reserved_keeps j h = elim (eq-cases j m.ctrl.tail) [
      | inl e ↦
          settle-reserved_put (store m.state m.ctrl.tail reserved_put j) (ground arith)
          ∙ sym tail_settled
          ∙ ap (λ (t : ℕ). settle (m.state t)) (sym e)
      | inr ne ↦
          ap settle {x = store m.state m.ctrl.tail reserved_put j} {y = m.state j} (ground arith)
    ]

    -- Dying before the READY store of `posixipc_queue_put` loses the item and nothing else.
    crash_put_early :
        (k : ℕ)
        → k < 3
        → RecoversTo v (run_put v m.ctrl.tail bytes (take k put_stores) m) (contents v m)
    unfolding run_put
    crash_put_early zero h = keeps m (λ j p. refl) refl
    crash_put_early (suc zero) h =
        keeps (record m { state = store m.state m.ctrl.tail reserved_put }) reserved_keeps refl
    crash_put_early (suc (suc zero)) h =
        keeps
          (record (put_done v m bytes) {
            ctrl = m.ctrl;
            state = store m.state m.ctrl.tail reserved_put;
          })
          reserved_keeps (put_done-others w r bytes (omega arith))
    crash_put_early (suc (suc (suc k))) h = absurd (omega arith)

    stored_here :
        store (store m.state m.ctrl.tail reserved_put) m.ctrl.tail ready m.ctrl.tail ≡ ready
    stored_here = ground arith

    stored_apart :
        (j : ℕ)
        → j ≢ m.ctrl.tail
        → store (store m.state m.ctrl.tail reserved_put) m.ctrl.tail ready j ≡ m.state j
    stored_apart j ne = ground arith

    crash_put_late :
        (k : ℕ)
        → 3 ≤ k
        → RecoversTo v
            (run_put v m.ctrl.tail bytes (take k put_stores) m)
            (contents v m ++ bytes ∷ [])
    unfolding run_put
    crash_put_late zero h = absurd (omega arith)
    crash_put_late (suc zero) h = absurd (omega arith)
    crash_put_late (suc (suc zero)) h = absurd (omega arith)
    crash_put_late (suc (suc (suc zero))) h = adds _ refl stored_here stored_apart
    crash_put_late (suc (suc (suc (suc zero)))) h = adds _ refl stored_here stored_apart
    crash_put_late (suc (suc (suc (suc (suc zero))))) h = adds _ refl stored_here stored_apart
    crash_put_late (suc (suc (suc (suc (suc (suc k)))))) h = adds _ refl stored_here stored_apart

    pub crash_put :
        (k : ℕ)
        → RecoversTo v
            (run_put v m.ctrl.tail bytes (take k put_stores) m)
            (if leb 3 k then contents v m ++ bytes ∷ [] else contents v m)
    crash_put k = elim (lt-cases k 3) [
      | inl early ↦ rw (not_committed k early) (crash_put_early k early)
      | inr late ↦ rw (committed k late) (crash_put_late k late)
    ]
