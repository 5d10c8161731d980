-- ===== src/Examples/Images.antt =====
-- A script image of tagha/tagha.c with one function and one variable, loaded from its bytes.
use tagha.Base.{ℕ, ◌+◌, ◌-◌, ◌≡◌, refl, ap, Bool, true, false, List, [], ◌∷◌, some}
use tagha.Mem.{Mem, load}
use tagha.Words.{add64}
use tagha.State.{Module, SymTable}
use tagha.Symbols.{empty_table}
use tagha.Symbols.Filed.{IsFiled}
use tagha.Loader.{PoolApi, Loading, header_at, setup_func}
use tagha.Setup.Tables.{setup_func_table-IsFiled}
use tagha.Setup.{Setup, done, crash, setup_memory, setup_func_table, setup_var_table}
use tagha.Setup.Region.{SizesAgree}
use tagha.Lifetime.{
  magic_verifier, zero_module, Created, created, refused, crashed, new_from_buffer,
}
use tagha.Lifetime.Made.{new_from_buffer-created}
use tagha.Examples.Fixtures.{with_bytes, blank}

-- A pool is the next free address and the end of its buffer.
abbrev pool : PoolApi (ℕ × ℕ)
pool = record {
  make_from_buffer = λ buf size. ((buf, buf + size), true);
  mem_remaining = λ p m. p.1 - p.0;
  alloc = λ p m size. record { heap = (p.0 + size, p.1); mem = m; ptr = p.0 };
}

-- The header; a function "f" of one byte; a variable "v" of 8 bytes.
abbrev image : List ℕ
image =
    222 ∷ 192 ∷ 106 ∷ 122 ∷ 64 ∷ 0 ∷ 0 ∷ 0 ∷ 64 ∷ 0 ∷ 0 ∷ 0 ∷ 128 ∷ 0 ∷ 0 ∷ 0 ∷ 232 ∷ 3 ∷ 0 ∷ 0
    ∷ 104 ∷ 4 ∷ 0 ∷ 0 ∷ 48 ∷ 0 ∷ 0 ∷ 0 ∷ 1 ∷ 0 ∷ 0 ∷ 0 ∷ 67 ∷ 0 ∷ 0 ∷ 0 ∷ 1 ∷ 0 ∷ 0 ∷ 0 ∷ 0 ∷ 16 ∷ 0
    ∷ 0 ∷ 0 ∷ 0 ∷ 0 ∷ 0 ∷ 19 ∷ 0 ∷ 0 ∷ 0 ∷ 0 ∷ 0 ∷ 0 ∷ 0 ∷ 2 ∷ 0 ∷ 0 ∷ 0 ∷ 1 ∷ 0 ∷ 0 ∷ 0 ∷ 102 ∷ 0
    ∷ 0 ∷ 26 ∷ 0 ∷ 0 ∷ 0 ∷ 0 ∷ 0 ∷ 0 ∷ 0 ∷ 2 ∷ 0 ∷ 0 ∷ 0 ∷ 8 ∷ 0 ∷ 0 ∷ 0 ∷ 118 ∷ 0 ∷ []

abbrev image_mem : Mem
image_mem = with_bytes 1000 image blank

abbrev first_char : List ℕ → ℕ
first_char [] = 0
first_char (c ∷ cs) = c

abbrev is_created : Created (ℕ × ℕ) → Bool
is_created (created l) = true
is_created (refused freed) = false
is_created crashed = false

abbrev no_module : Loading (ℕ × ℕ)
no_module = record { module_ = zero_module 0; heap = (0, 0); mem = blank }

abbrev loaded_of : Created (ℕ × ℕ) → Loading (ℕ × ℕ)
loaded_of (created l) = l
loaded_of (refused freed) = no_module
loaded_of crashed = no_module

created_of : (c : Created (ℕ × ℕ)) → is_created c ≡ true → c ≡ created (loaded_of c)
created_of (created l) e = refl
created_of (refused freed) e = absurd cc
created_of crashed e = absurd cc

abbrev made : Created (ℕ × ℕ)
made = new_from_buffer pool first_char (0, 0) 512 1000 image_mem

image_loads : is_created made ≡ true
unfolding new_from_buffer load setup_memory setup_func_table setup_var_table add64 setup_func
    tagha.State.store_item tagha.Mem.store empty_table
image_loads = refl

-- A wrong magic number: the module that calloc gave is freed, the buffer is not.
wrong_magic : new_from_buffer pool first_char (0, 0) 512 2000 image_mem ≡ refused (512 ∷ [])
unfolding new_from_buffer load
wrong_magic = refl

abbrev image_state : Loading (ℕ × ℕ)
image_state = record {
  module_ = record (zero_module 512) { script = 1000 };
  heap = (6000, 9000);
  mem = image_mem;
}

-- The function table of the image, on a memory region that is already set up.
abbrev table_made : Setup (ℕ × ℕ)
table_made = setup_func_table pool first_char image_state

abbrev is_done : Setup (ℕ × ℕ) → Bool
is_done (done b l) = b
is_done crash = false

abbrev left_of : Setup (ℕ × ℕ) → Loading (ℕ × ℕ)
left_of (done b l) = l
left_of crash = no_module

done_of : (r : Setup (ℕ × ℕ)) → is_done r ≡ true → r ≡ done true (left_of r)
done_of (done b l) e = ap (λ q. done q l) e
done_of crash e = absurd cc

table_loads : is_done table_made ≡ true
unfolding load setup_func_table empty_table setup_func
table_loads = refl

setup_func_table-IsFiled_example :
    (t : SymTable) × ((left_of table_made).module_.funcs ≡ some t)
    × (t.len ≡ (header_at image_mem 1000).func_count)
    × IsFiled first_char t.len t
setup_func_table-IsFiled_example =
    setup_func_table-IsFiled pool first_char 1000 (λ heap m size. refl) image_state
      (left_of table_made) refl (done_of table_made table_loads)

new_from_buffer-created_example :
    (load 4 image_mem 1000 ≡ magic_verifier)
    × SizesAgree (header_at image_mem 1000)
    × ((fs : SymTable) × ((loaded_of made).module_.funcs ≡ some fs)
        × (fs.len ≡ (header_at image_mem 1000).func_count)
        × IsFiled first_char fs.len fs)
    × ((vs : SymTable) × ((loaded_of made).module_.vars ≡ some vs) × IsFiled first_char vs.len vs)
new_from_buffer-created_example =
    new_from_buffer-created pool first_char (0, 0) 512 1000 image_mem (loaded_of made)
      (λ heap m size. refl) (created_of made image_loads)
