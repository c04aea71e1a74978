-- ===== src/Examples/Segments.antt =====
-- Segments: a layout of two slots, a created segment, an attach's comparison, and times.
use mathlib.Core.Logic.{◌↔◌}
use posixipc.Prelude.{
  ◌+◌, ◌*◌, ◌≤◌, ◌≡◌, refl, arith, true, false, none, some, List, [], ◌∷◌, length,
}
use posixipc.Codes.{success}
use posixipc.Word.{u32_max}
use posixipc.Config.{Config, IsConfig, IsAlignment}
use posixipc.Layout.Digest.{Slot, abi_tag, layout_digest}
use posixipc.Layout.{Expect, sizeof_slot, layout_version, kind_align, kind_size, build}
use posixipc.Align.{layout_align_up}
use posixipc.Layout.Place.{Placed}
use posixipc.Layout.Build.{dir_end, build_places}
use posixipc.Layout.Rebuild.{build_again}
use posixipc.Os.{Trace, Os, ok, Header, Timespec, Watch}
use posixipc.Time.{deadline_expired, Deadline, Seconds}
use posixipc.Shm.{Handle, reset_handle, create}
use posixipc.Shm.Name.{validate_name, validate_name_iff, IsPortable}
use posixipc.Shm.Create.{Settles, held, create-Settles}
use posixipc.Shm.Attach.{attach, wait_size, wait_ready}
use posixipc.Shm.Attach.Ends.{Ends, wait_loops-Ends}
use posixipc.Shm.Attach.Laws.{AttachesIn, attach-Attaches}
use posixipc.Shm.Compare.{Agrees, compare_expect, compare_expect_sound, compare_expect_complete}
use posixipc.Shm.Pointer.{IsRange, offset_ptr, offset_ptr_iff}
use posixipc.Examples.Rings.{IsCacheline-64}

abbrev pub linux : Config
linux = record {
  cacheline = 64;
  libc_family = 1;
  abi_tag_seed = 5;
  sizeof_mutex = 40;
  sizeof_rwlock = 56;
  sizeof_cond = 48;
  sizeof_barrier = 32;
  sizeof_spinlock = 4;
  sizeof_sem = 32;
  align_mutex = 8;
  align_rwlock = 8;
  align_cond = 8;
  align_barrier = 8;
  align_spinlock = 4;
  align_sem = 8;
  have_barrier_wait = true;
  have_barrierattr_setpshared = true;
  have_condattr_setclock = true;
  have_spin_init = true;
  have_spin_trylock = true;
  have_sem_open = true;
  have_mq_open = true;
  have_memfd_create = true;
  have_eventfd = true;
}

word_8 : IsAlignment 8
word_8 = record { pos = omega arith; word = omega arith }

linux-IsConfig : IsConfig linux
linux-IsConfig = record {
  cacheline = IsCacheline-64;
  mutex = word_8;
  rwlock = word_8;
  cond = word_8;
  barrier = word_8;
  spinlock = record { pos = omega arith; word = omega arith };
  sem = word_8;
}

-- a mutex and ten bytes, as the caller gives them and as they are placed
abbrev asked : List Slot
asked =
    (record { kind = 2; align = 0; offset = 0; size = 0; init_flags = 2 })
    ∷ (record { kind = 1; align = 64; offset = 0; size = 10; init_flags = 0 })
    ∷ []

abbrev placed : List Slot
placed =
    (record { kind = 2; align = 8; offset = 96; size = 64; init_flags = 2 })
    ∷ (record { kind = 1; align = 64; offset = 192; size = 10; init_flags = 0 })
    ∷ []

abbrev expected : Expect
expected = record {
  layout_version = 1;
  slot_count = 2;
  abi_tag = abi_tag linux;
  flags = 0;
  total_size = 202;
  directory_bytes = 32;
  layout_digest = layout_digest linux layout_version (abi_tag linux) placed;
  slots = some placed;
}

asked-build : build linux true (some asked) 2 ≡ (success, some placed, some expected)
unfolding build kind_align kind_size layout_align_up
asked-build = refl

build_places_example :
    Placed (dir_end 2) placed 202
    × (length placed ≡ 2)
    × (202 ≤ u32_max)
    × (expected.directory_bytes ≡ sizeof_slot * 2)
    × (expected.slots ≡ some placed)
    × (expected.layout_digest ≡ layout_digest linux layout_version (abi_tag linux) placed)
build_places_example =
    build_places linux-IsConfig asked {out = placed} {e = expected} (omega arith)
      (omega arith, (omega arith, tt)) asked-build

build_again_example : build linux true (some placed) 2 ≡ (success, some placed, some expected)
build_again_example =
    build_again linux-IsConfig asked {out = placed} {e = expected} (omega arith)
      (omega arith, (omega arith, tt)) asked-build

abbrev written : Header
written = record {
  magic = 0x43504950;
  layout_version = 1;
  slot_count = 2;
  abi_tag = abi_tag linux;
  flags = 0;
  total_size = 202;
  directory_bytes = 32;
  state = 2;
  layout_digest = layout_digest linux layout_version (abi_tag linux) placed;
}

written-Agrees : Agrees 0x43504950 written expected
written-Agrees = record {
  magic = refl;
  layout_version = refl;
  slot_count = refl;
  abi_tag = refl;
  total_size = refl;
  directory_bytes = refl;
  layout_digest = refl;
}

compare_expect_complete_example :
    compare_expect 0x43504950 written (some placed) (some expected) ≡ success
compare_expect_complete_example =
    compare_expect_complete 0x43504950 written placed placed expected refl refl refl written-Agrees
      refl

written-compare_expect : compare_expect 0x43504950 written (some placed) (some expected) ≡ success
unfolding compare_expect
written-compare_expect = ground arith

compare_expect_sound_example : Agrees 0x43504950 written expected × (placed ≡ placed)
compare_expect_sound_example =
    compare_expect_sound 0x43504950 written placed placed expected refl refl refl
      written-compare_expect

abbrev mapped : Handle
mapped = record { map = some 4096; map_len = 202; hdr = some 4096; name = some (47 ∷ 97 ∷ []) }

offset_ptr_iff_example :
    (offset_ptr (some mapped) written 192 10 64 true ≡ (success, some (4096 + 192)))
    ↔ IsRange written 192 10 64
offset_ptr_iff_example =
    offset_ptr_iff mapped written 4096 192 10 64 refl (λ e. ground arith) (omega arith)
      (omega arith)

validate_name_iff_example :
    (validate_name (some (47 ∷ 97 ∷ [])) ≡ success) ↔ IsPortable (some (47 ∷ 97 ∷ []))
validate_name_iff_example = validate_name_iff (some (47 ∷ 97 ∷ []))

-- a system with room for one object, whose copy of the name fails
abbrev pub crowded : Os
crowded = record {
  shm_create = λ tr name. ok 5;
  shm_open = λ tr name. ok 5;
  shm_unlink = λ tr name. ok tt;
  fstat = λ tr fd. ok (record { uid = 1000; mode = 384; size = 202 });
  ftruncate = λ tr fd n. ok tt;
  mmap = λ tr fd n. ok 4096;
  munmap = λ tr p n. ok tt;
  close = λ tr fd. ok tt;
  malloc = λ tr n. none;
  nanosleep = λ tr n. ok tt;
  clock_gettime = λ tr clk. ok (record { sec = 10; nsec = 0 });
  load_state = λ tr p. 2;
  load_header = λ tr p. written;
  load_directory = λ tr p n. placed;
  geteuid = 1000;
  htobe32 = λ n. n;
}

-- the descriptor, the mapping and the object of these
abbrev pub watched : Watch
watched = record { fd = 5; address = 4096; len = 202; name = 47 ∷ 97 ∷ [] }

create-Settles_example :
    Settles watched
      (some (47 ∷ 97 ∷ []))
      0
      0
      0
      202
      (held (create crowded (some (47 ∷ 97 ∷ [])) (some expected) (some reset_handle) []))
create-Settles_example =
    create-Settles crowded expected watched (some (47 ∷ 97 ∷ [])) reset_handle []

abbrev half_past : Timespec
half_past = record { sec = 10; nsec = 500_000_000 }

abbrev later : Timespec
later = record { sec = 11; nsec = 0 }

abbrev nearly_three : Seconds
nearly_three = record { is_nan = false; is_negative = false; whole = 2; nanos = 700_000_000 }

abbrev first : Deadline
first = record { clk = 1; ts = half_past }

abbrev second : Deadline
second = record { clk = 1; ts = later }

-- the loops end at once, and the copy of the name fails
attach-Attaches_example :
    AttachesIn watched 0 0 0
      (attach crowded 9 (some (47 ∷ 97 ∷ [])) (some expected) none (some reset_handle) [])
attach-Attaches_example =
    attach-Attaches crowded 9 (some expected) none watched (some (47 ∷ 97 ∷ [])) reset_handle []

-- a system whose clock goes on by a second with each call, and whose objects stay empty
abbrev pub ticking : Os
ticking = record crowded {
  clock_gettime = λ tr clk. ok (record { sec = length tr; nsec = 0 });
  fstat = λ tr fd. ok (record { uid = 1000; mode = 384; size = 0 });
  load_state = λ tr p. 1;
}

ticking-passes : (t : Trace) → 12 ≤ length t → (deadline_expired ticking (some second) t).0 ≡ true
unfolding deadline_expired
ticking-passes t h = ground arith

wait_loops-Ends_example :
    Ends (wait_size ticking 20 5 (some second) 1 [])
    × Ends (wait_ready ticking 20 4096 (some second) 1 [])
wait_loops-Ends_example =
    wait_loops-Ends ticking second 12 ticking-passes 19 5 4096 1 [] (omega arith)
