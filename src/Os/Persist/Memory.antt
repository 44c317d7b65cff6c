-- ===== src/Os/Persist/Memory.antt =====
-- Files in memory, and the store of os/src/os_persist.c on them as it starts: for concrete input.
use esp32_c6_gateway_os.Base.{
  ℕ, List, [], Option, if_true, none, some, refl, true, bytes_eq, length, bytes_eq_self,
  if◌then◌else◌, if_false, false, bytes_eq_ne, each-replicate, ◌≤◌, arith, count_if-replicate, sym,
}
use esp32_c6_gateway_os.Os.Persist.Types.{
  Disk, IsFaithful, Accepts, Persist, Store, zero_buffer, zero_persist, zero_entry,
}
use esp32_c6_gateway_os.Os.Persist.Ops.{holds}
use esp32_c6_gateway_os.Os.Event.State.{zero_bus}
use esp32_c6_gateway_os.Os.Persist.View.{IsValid}
use esp32_c6_gateway_os.Os.Persist.Lookup.{is_used, holds_free, free_entry}

-- Files in memory that keep what is written.
abbrev pub memory : Disk
memory = record {
  Files = List ℕ → Option (List ℕ);
  ensure_dir = λ fs. (true, fs);
  write = λ fs path bytes.
      (some (length bytes), λ other. if bytes_eq path other then some bytes else fs other);
  read = λ fs path. fs path;
  unlink = λ fs path. (true, λ other. if bytes_eq path other then none else fs other);
  names = λ fs. [];
  stat = λ fs path. elim (fs path) [ none ↦ false | some bytes ↦ true ];
}

pub memory-IsFaithful : IsFaithful memory
memory-IsFaithful = record {
  read-write = λ fs path bytes done. if_true (bytes_eq path path) _ _ (bytes_eq_self path);
  read-write_ne =
      λ fs path other bytes ne. if_false (bytes_eq path other) _ _ (bytes_eq_ne path other ne);
}

pub memory-Accepts : Accepts memory
memory-Accepts fs path bytes = refl

abbrev pub started : Persist
started = let z : Persist = zero_persist in record z { initialized = true }

abbrev pub empty_store : Store memory
empty_store = record { svc = started; files = λ path. none; bus = zero_bus }

pub empty_store-IsValid : IsValid started
unfolding zero_buffer
empty_store-IsValid = record {
  size = refl;
  short = each-replicate (λ y. length y.key ≤ 31) 16 zero_entry (omega arith);
  distinct = λ key.
      omega (arith, count_if-replicate (holds key) 16 zero_entry (holds_free key zero_entry refl));
  counted = sym (count_if-replicate is_used 16 zero_entry (free_entry zero_entry refl));
}
