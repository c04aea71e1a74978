-- ===== src/Bindings/Region/Threads/Safety.antt =====
-- A segment that is pinned stays mapped, where its closes come one after another.
use Prim.Native.Nat.{bit_and, bit_or}
use posixipc.Prelude.{
  sym, ap, ◌∙◌, ℕ, ◌+◌, ◌≤◌, ◌<◌, ◌≡◌, ◌≢◌, refl, arith, ◌⊎◌, inl, inr, true, false, ◌||◌, some,
  is_null, ◌!=◌,
}
use posixipc.Codes.{success}
use posixipc.Word.{u32_mod, not32}
use posixipc.Os.{Os, Trace}
use posixipc.Shm.{Handle, close_handle}
use posixipc.Bindings.Region.{
  Region, flag_closed, shm_is_closed, add_pin, posixipc_shmobj_unpin, set_closed, clear_closed,
}
use posixipc.Bindings.Region.Threads.{Threads, closers, holders, start, Step, Reach}

-- closed: the flag, or no mapping
pub record Places (t : Threads) : Type 0 where
  pub counted : (t.region).pins ≡ holders t
  pub few : holders t < u32_mod
  pub alone : closers t ≤ 1
  pub flag : ((t.region).flags ≡ 0) ⊎ ((t.region).flags ≡ 8)
  -- behind the store of CLOSED the flag stays until the close is over
  pub held : 0 < t.marked + t.refusing + t.unmapping + t.failing → (t.region).flags ≡ 8
  pub mapped : 0 < closers t → is_null (t.region).core.map ≡ false
  pub unused : 0 < t.unmapping + t.failing → t.pinned ≡ 0
  pub gone : is_null (t.region).core.map ≡ true → ((t.region).flags ≡ 8) × (t.pinned ≡ 0)

module _ (r : Region) where
  closed-0 : r.flags ≡ 0 → shm_is_closed r ≡ is_null r.core.map
  unfolding shm_is_closed
  closed-0 e = ap (λ (f : ℕ). bit_and f flag_closed != 0 || is_null r.core.map) e

  closed-8 : r.flags ≡ 8 → shm_is_closed r ≡ true
  unfolding shm_is_closed
  closed-8 e = ap (λ (f : ℕ). bit_and f flag_closed != 0 || is_null r.core.map) e

  set-8 : (r.flags ≡ 0) ⊎ (r.flags ≡ 8) → (set_closed r).flags ≡ 8
  unfolding set_closed
  set-8 (inl e) = ap (λ (f : ℕ). bit_or f flag_closed) e
  set-8 (inr e) = ap (λ (f : ℕ). bit_or f flag_closed) e

  clear-0 : r.flags ≡ 8 → (clear_closed r).flags ≡ 0
  unfolding clear_closed
  clear-0 e = ap (λ (f : ℕ). bit_and f (not32 flag_closed)) e

  seen_open :
      (r.flags ≡ 0) ⊎ (r.flags ≡ 8)
      → shm_is_closed r ≡ false
      → (r.flags ≡ 0) × (is_null r.core.map ≡ false)
  seen_open (inl e) h = (e, sym (closed-0 e) ∙ h)
  seen_open (inr e) h = absurd (ground (arith, closed-8 e))

-- what an unmap that fails leaves of the handle
fails-keeps :
    (os : Os) (h : Handle) (tr : Trace) {rc : ℕ} {core : Handle} {tr' : Trace}
    → rc ≢ success
    → close_handle os (some h) tr ≡ ((rc, some core), tr')
    → core ≡ h
unfolding close_handle
fails-keeps os h tr bad done = ground arith

start-Places :
    (r : Region) (tr : Trace)
    → r.flags ≡ 0
    → r.pins ≡ 0
    → is_null r.core.map ≡ false
    → Places (start r tr)
start-Places r tr flags pins mapped = record {
  counted = pins;
  few = omega arith;
  alone = omega arith;
  flag = inl flags;
  held = λ h. absurd (omega arith);
  mapped = λ _. mapped;
  unused = λ _. refl;
  gone = λ h. cc;
}

module _ (os : Os) where
  Step-Places : {t u : Threads} → Step os 1 t u → Places t → Places u
  unfolding add_pin posixipc_shmobj_unpin set_closed clear_closed
  Step-Places (Step.pin_add {t} few) p = record {
    counted = omega arith;
    few = omega arith;
    alone = omega arith;
    flag = p.flag;
    held = p.held;
    mapped = p.mapped;
    unused = p.unused;
    gone = p.gone;
  }
  Step-Places (Step.pin_given {t} {n} e o) p =
      let at_0 = seen_open t.region p.flag o in
      record {
        counted = omega arith;
        few = omega arith;
        alone = omega arith;
        flag = p.flag;
        held = p.held;
        mapped = p.mapped;
        unused = λ h. ground arith;
        gone = λ h. ground arith;
      }
  Step-Places (Step.pin_refused {t} {n} e c) p = record {
    counted = omega arith;
    few = omega arith;
    alone = omega arith;
    flag = p.flag;
    held = p.held;
    mapped = p.mapped;
    unused = p.unused;
    gone = p.gone;
  }
  Step-Places (Step.pin_undone {t} {n} e) p = record {
    counted = omega arith;
    few = omega arith;
    alone = omega arith;
    flag = p.flag;
    held = p.held;
    mapped = p.mapped;
    unused = p.unused;
    gone = p.gone;
  }
  Step-Places (Step.unpin {t} {n} e) p = record {
    counted = omega arith;
    few = omega arith;
    alone = omega arith;
    flag = p.flag;
    held = p.held;
    mapped = p.mapped;
    unused = λ h. ground arith;
    gone = λ h. ground arith;
  }
  Step-Places (Step.close_again {t} c) p =
      let at_8 = set-8 t.region p.flag in
      record {
        counted = omega arith;
        few = omega arith;
        alone = omega arith;
        flag = inr at_8;
        held = λ _. at_8;
        mapped = p.mapped;
        unused = p.unused;
        gone = λ h. (at_8, (p.gone h).1);
      }
  Step-Places (Step.close_open {t} fewer o) p =
      let at_0 = seen_open t.region p.flag o in
      record {
        counted = omega arith;
        few = omega arith;
        alone = omega arith;
        flag = p.flag;
        held = p.held;
        mapped = λ _. at_0.1;
        unused = p.unused;
        gone = p.gone;
      }
  Step-Places (Step.close_mark {t} {n} e) p =
      let at_8 = set-8 t.region p.flag in
      record {
        counted = omega arith;
        few = omega arith;
        alone = omega arith;
        flag = inr at_8;
        held = λ _. at_8;
        mapped = λ h. ground arith;
        unused = λ h. ground arith;
        gone = λ h. (at_8, (p.gone h).1);
      }
  Step-Places (Step.close_pinned {t} {n} e some_held) p = record {
    counted = omega arith;
    few = omega arith;
    alone = omega arith;
    flag = p.flag;
    held = λ h. ground arith;
    mapped = λ h. ground arith;
    unused = p.unused;
    gone = p.gone;
  }
  Step-Places (Step.close_unpinned {t} {n} e none_held) p = record {
    counted = omega arith;
    few = omega arith;
    alone = omega arith;
    flag = p.flag;
    held = λ h. ground arith;
    mapped = λ h. ground arith;
    unused = λ h. ground arith;
    gone = p.gone;
  }
  Step-Places (Step.close_refused {t} {n} e) p =
      let at_0 = clear-0 t.region (p.held (omega arith)) in
      record {
        counted = omega arith;
        few = omega arith;
        alone = omega arith;
        flag = inl at_0;
        held = λ h. ground arith;
        mapped = λ h. ground arith;
        unused = p.unused;
        gone = λ h. ground arith;
      }
  Step-Places (Step.close_unmapped {t} {n} {core} {tr} e done) p =
      let at_8 = p.held (omega arith) in
      let no_pin = p.unused (omega arith) in
      record {
        counted = omega arith;
        few = omega arith;
        alone = omega arith;
        flag = p.flag;
        held = λ h. ground arith;
        mapped = λ h. ground arith;
        unused = λ h. ground arith;
        gone = λ _. (at_8, no_pin);
      }
  Step-Places (Step.close_failed {t} {n} {rc} {core} {tr} e bad done) p =
      let kept = fails-keeps os (t.region).core t.trace bad done in
      record {
        counted = omega arith;
        few = omega arith;
        alone = omega arith;
        flag = p.flag;
        held = λ h. ground arith;
        mapped = λ h. ground arith;
        unused = λ h. ground arith;
        gone = λ h. ground arith;
      }
  Step-Places (Step.close_restored {t} {n} e) p =
      let at_0 = clear-0 t.region (p.held (omega arith)) in
      record {
        counted = omega arith;
        few = omega arith;
        alone = omega arith;
        flag = inl at_0;
        held = λ h. ground arith;
        mapped = λ h. ground arith;
        unused = λ h. ground arith;
        gone = λ h. ground arith;
      }

  Reach-Places : {s u : Threads} → Places s → Reach os 1 s u → Places u
  Reach-Places p Reach.here = p
  Reach-Places p (Reach.next before step) = Step-Places step (Reach-Places p before)

  -- Where at most one thread at a time is in a close, a segment that some thread has pinned is mapped,
  -- and the pins are counted, in every state that threads reach from an open segment without pins.
  pub pinned_is_mapped :
      (r : Region) (tr : Trace) {u : Threads}
      → r.flags ≡ 0
      → r.pins ≡ 0
      → is_null r.core.map ≡ false
      → Reach os 1 (start r tr) u
      → ((u.region).pins ≡ holders u) × (0 < u.pinned → is_null (u.region).core.map ≡ false)
  pinned_is_mapped r tr flags pins mapped run =
      let p = Reach-Places (start-Places r tr flags pins mapped) run in
      (p.counted, λ h. ground arith)
