-- ===== src/Lifetime.antt =====
-- The constructors and destructors of modules in tagha/tagha.c: `tagha_module_new_from_buffer`,
-- `tagha_module_clear`, `tagha_module_free`. calloc and free belong to C: the address that calloc
-- gives is an argument, and the addresses that are freed are listed.
pub mod Made
use tagha.Base.{
  ℕ, ◌+◌, Bool, true, false, not, none, some, Option, List, [], ◌∷◌, ◌++◌, ◌==◌, if◌then◌else◌,
}
use tagha.Mem.{Mem, load}
use tagha.State.{Module, nil}
use tagha.Loader.{Loading, PoolApi}
use tagha.Setup.{Setup, done, crash, read_module_data}

-- TAGHA_MAGIC_VERIFIER
abbrev pub magic_verifier : ℕ
magic_verifier = 2053816542

-- `( struct TaghaModule ){0}` at an address
abbrev pub zero_module : ℕ → Module
zero_module self = record {
  self = self;
  funcs = none;
  vars = none;
  script = nil;
  low_seg = 0;
  high_seg = 0;
  opstack = 0;
  callstack = 0;
  osp = 0;
  ofp = 0;
  csp = 0;
  lr = 0;
  opstack_size = 0;
  callstack_size = 0;
  vec_len = 0;
  elem_len = 0;
  flags = 0;
  err = 0;
  cond = 0;
}

-- tagha_module_clear: what it frees, and the cleared module
unfoldable pub module_clear : Module → List ℕ × Module
module_clear vm = ((if vm.script == nil then [] else vm.script ∷ []), zero_module vm.self)

-- tagha_module_free, on a reference to a module or to NULL: its `bool`, and what it frees
unfoldable pub module_free : Option Module → Bool × List ℕ
unfolding module_clear
module_free none = (false, [])
module_free (some vm) = (true, (module_clear vm).0 ++ vm.self ∷ [])

-- How a construction ends. A failed one has given back the addresses.
pub data Created (P : Type 0) : Type 0 where
  created : Loading P → Created P
  refused : List ℕ → Created P
  crashed : Created P

module _ {P : Type 0} (api : PoolApi P) (string_hash : List ℕ → ℕ) (no_pool : P) where
  -- What follows `_read_module_data`.
  unfoldable pub finish_read : Setup P → Created P
  unfolding module_free
  finish_read (done true l) = created l
  finish_read (done false l) = refused (module_free (some l.module_)).1
  finish_read crash = crashed

  -- tagha_module_new_from_buffer, where calloc gives `self`
  unfoldable pub new_from_buffer : ℕ → ℕ → Mem → Created P
  unfolding finish_read read_module_data
  new_from_buffer self buffer m =
      if self == nil
      then refused []
      else if not (load 4 m buffer == magic_verifier)
      then refused (module_free (some (zero_module self))).1
      else finish_read (
          read_module_data api string_hash buffer
            (record { module_ = zero_module self; heap = no_pool; mem = m }))
