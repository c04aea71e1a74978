-- ===== src/Bindings/Region/Closing.antt =====
-- The pins and the close of a segment object in src/bindings/py_shm.c, called one after another.
use posixipc.Prelude.{
  ℕ, suc, ◌<◌, ◌≡◌, ap, arith, Bool, true, false, not, Option, some, ltb, ◌&&◌, if◌then◌else◌, ◌∷◌,
}
use posixipc.Word.{u32_mod, add32, sub32}
use posixipc.Os.{Os, Trace, Ret, ok, fail, Event}
use posixipc.Os
use posixipc.Shm.{reset_handle, close_handle}
use posixipc.Bindings.Errors.{Raised, Outcome, returned, raised, posixipc_err}
use posixipc.Bindings.Region.{
  Region, State, shm_is_closed, add_pin, posixipc_shmobj_unpin, set_closed, clear_closed,
  pin_checked, posixipc_shmobj_pin, unmap, close_marked, posixipc_shmobj_close, shm_getbuffer,
  shm_releasebuffer, fill_pinned, flag_closed,
}

-- an object that is open
abbrev pub open_region : ℕ → ℕ → Option Os.Name → ℕ → Bool → Region
open_region p len name pins created = record {
  core = record { map = some p; map_len = len; hdr = some p; name = name };
  pins = pins;
  flags = 0;
  created = created;
}

-- an object that is closed
abbrev pub closed_region : ℕ → Bool → Region
closed_region pins created = record {
  core = reset_handle;
  pins = pins;
  flags = flag_closed;
  created = created;
}

added : (pins : ℕ) → suc pins < u32_mod → add32 pins 1 ≡ suc pins
added pins few = omega arith

added_taken : (pins : ℕ) → suc pins < u32_mod → sub32 (add32 pins 1) 1 ≡ pins
added_taken pins few = omega arith

-- a close behind its munmap
abbrev pub unmapped : Region → Ret (Unit {0}) → Trace → Outcome Bool × State
unmapped r (ok _) tr = (returned true, (closed_region r.pins r.created, tr))
unmapped r (fail e) tr = (raised (posixipc_err (suc e)), (r, tr))

module _ (os : Os) (p len : ℕ) (name : Option Os.Name) (pins : ℕ) (created : Bool)
    (tr : Trace) where
  abbrev r : Region
  r = open_region p len name pins created

  -- A close of an open object: one that is not forced is refused while the object is pinned, calls
  -- nothing and leaves it open; else the object is closed and its handle empty if munmap succeeds,
  -- and as it was, with the error raised, if munmap fails.
  pub shmobj_close_lem :
      (force : Bool)
      → posixipc_shmobj_close os force (r, tr) ≡ (
          if not force && ltb 0 pins
          then (raised (some Raised.buffer_error), (r, tr))
          else unmapped r (os.munmap tr p len) (Event.munmap p len (os.munmap tr p len) ∷ tr))
  unfolding posixipc_shmobj_close close_marked unmap close_handle shm_is_closed set_closed
      clear_closed
  shmobj_close_lem force = ground arith

  -- A buffer of an open object is its mapping and pins it once more, and its release takes that pin
  -- back; a buffer that is refused leaves the object as it was.
  pub getbuffer_release :
      suc pins < u32_mod
      → (shm_getbuffer os true r ≡ (returned (some p, len), record r { pins = suc pins }))
        × (shm_releasebuffer os (shm_getbuffer os true r).1 ≡ r)
        × (shm_getbuffer os false r ≡ (raised (some Raised.buffer_error), r))
  unfolding shm_getbuffer shm_releasebuffer posixipc_shmobj_pin add_pin pin_checked fill_pinned
      posixipc_shmobj_unpin shm_is_closed
  getbuffer_release few =
      let back = ap (λ (n : ℕ). open_region p len name n created) (added_taken pins few) in
      (
        ap (λ (n : ℕ). (returned (some p, len), open_region p len name n created)) (added pins few),
        back,
        ap (λ (s : Region). (raised (some Raised.buffer_error), s)) back,
      )
