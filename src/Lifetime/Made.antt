-- ===== src/Lifetime/Made.antt =====
-- What holds of a module that `tagha_module_new_from_buffer` (tagha/tagha.c) has made.
use tagha.Base.{
  ℕ, ◌≡◌, ◌⊎◌, ◌∙◌, refl, ap, arith, Bool, true, false, ◌&&◌, List, some, Bool-cases, inl, inr,
  ◌==◌, ==→eq,
}
use tagha.Words.{add64}
use tagha.Mem.{Mem, load}
use tagha.State.{SymTable, nil}
use tagha.Symbols.Filed.{IsFiled}
use tagha.Loader.{Header, header_at, Loading, PoolApi}
use tagha.Setup.{
  Setup, done, crash, setup_memory, setup_func_table, setup_var_table, read_module_data,
}
use tagha.Setup.Region.{SizesAgree, setup_memory-IsRegion}
use tagha.Setup.Tables.{
  KeepsHeader, setup_func_table-IsFiled, setup_var_table-IsFiled, setup_func_table-done,
  setup_var_table-done,
}
use tagha.Lifetime.{magic_verifier, zero_module, created, finish_read, new_from_buffer}

Setup-cases :
    {P : Type 0} (r : Setup P) → (r ≡ crash) ⊎ ((b : Bool) × (l : Loading P) × (r ≡ done b l))
Setup-cases (done b l) = inr (b, l, refl)
Setup-cases crash = inl refl

done_and :
    {P : Type 0} (a b c : Bool) (l l' : Loading P)
    → done (a && b && c) l ≡ done true l'
    → (a ≡ true) × (b ≡ true) × (done c l ≡ done true l')
done_and true true c l l' e = (refl, refl, e)
done_and true false c l l' e = absurd (cc)
done_and false b c l l' e = absurd (cc)

module _ {P : Type 0} (api : PoolApi P) (string_hash : List ℕ → ℕ) where
  -- Where all of `_read_module_data` succeeds, each part has.
  read_module_data-parts :
      (filedata : ℕ) (l l' : Loading P)
      → read_module_data api string_hash filedata l ≡ done true l'
      → (l1 : Loading P) × (l2 : Loading P) × (setup_memory api (record l {
        module_ = record (l.module_) {
          script = filedata;
          flags = (header_at l.mem filedata).flags;
        };
      })
          ≡ done true l1)
        × (setup_func_table api string_hash l1 ≡ done true l2)
        × (setup_var_table api string_hash l2 ≡ done true l')
  unfolding read_module_data
  read_module_data-parts filedata l l' e =
      let l0 = record l {
        module_ = record (l.module_) {
          script = filedata;
          flags = (header_at l.mem filedata).flags;
        };
      } in
      elim (Setup-cases (setup_memory api l0)) [
        | inl c ↦ let q = rw (c, read_module_data) at e in absurd cc
        | inr (b1, l1, e1) ↦ elim (Setup-cases (setup_func_table api string_hash l1)) [
          | inl c ↦ let q = rw (e1, c, read_module_data) at e in absurd cc
          | inr (b2, l2, e2) ↦ elim (Setup-cases (setup_var_table api string_hash l2)) [
            | inl c ↦ let q = rw (e1, e2, c, read_module_data) at e in absurd cc
            | inr (b3, l3, e3) ↦
                let (t1, t2, t3) =
                  done_and b1 b2 b3 l3 l' (rw (e1, e2, e3, read_module_data) at e) in
                (l1, l2, e1 ∙ ap (λ b. done b l1) t1, e2 ∙ ap (λ b. done b l2) t2, e3 ∙ t3)
          ]
        ]
      ]

  -- `_setup_memory` leaves the script and its header.
  setup_memory-header :
      (l l' : Loading P)
      → KeepsHeader api l.module_.script
      → setup_memory api l ≡ done true l'
      → (l'.module_.script ≡ l.module_.script)
        × (header_at l'.mem l.module_.script ≡ header_at l.mem l.module_.script)
  unfolding setup_memory
  setup_memory-header l l' keeps e =
      let hdr = header_at l.mem l.module_.script in
      let pool = api.make_from_buffer (add64 l.module_.script hdr.mem_offset) hdr.memsize in
      let ops = api.alloc pool.0 l.mem hdr.opstacksize in
      let calls = api.alloc ops.heap ops.mem (header_at ops.mem l.module_.script).callstacksize in
      let at : (l'.mem ≡ calls.mem) × (l'.module_.script ≡ l.module_.script) = ground arith in
      (at.1, ap (λ m. header_at m l.module_.script) at.0 ∙ keeps _ _ _ ∙ keeps _ _ _)

  finish_read-created :
      (no_pool : P) (r : Setup P) (l : Loading P)
      → finish_read api string_hash no_pool r ≡ created l
      → r ≡ done true l
  unfolding finish_read
  finish_read-created no_pool (done true k) l e = ground arith
  finish_read-created no_pool (done false k) l e = absurd cc
  finish_read-created no_pool crash l e = absurd cc

  new_from_buffer-read :
      (no_pool : P) (self buffer : ℕ) (m : Mem) (l : Loading P)
      → new_from_buffer api string_hash no_pool self buffer m ≡ created l
      → (load 4 m buffer ≡ magic_verifier)
        × (read_module_data api string_hash buffer
              (record { module_ = zero_module self; heap = no_pool; mem = m })
            ≡ done true l)
  unfolding new_from_buffer
  new_from_buffer-read no_pool self buffer m l e = elim (Bool-cases (self == nil)) [
    | inl t ↦ let q = rw (t, new_from_buffer) at e in absurd cc
    | inr t ↦ elim (Bool-cases (load 4 m buffer == magic_verifier)) [
      | inl t' ↦ (
        ==→eq (load 4 m buffer) magic_verifier t',
        finish_read-created no_pool _ l (rw (t, t', new_from_buffer) at e),
      )
      | inr t' ↦ let q = rw (t, t', new_from_buffer) at e in absurd cc
    ]
  ]

  -- Where `tagha_module_new_from_buffer` gives a module, over allocations that leave the script's
  -- header, the buffer begins with the magic number, the sizes in its header agree, and the module
  -- has a table of functions with the header's number of entries and a table of variables, both
  -- filed.
  pub new_from_buffer-created :
      (no_pool : P) (self buffer : ℕ) (m : Mem) (l : Loading P)
      → KeepsHeader api buffer
      → new_from_buffer api string_hash no_pool self buffer m ≡ created l
      → (load 4 m buffer ≡ magic_verifier)
        × SizesAgree (header_at m buffer)
        × ((fs : SymTable) × (l.module_.funcs ≡ some fs)
            × (fs.len ≡ (header_at m buffer).func_count)
            × IsFiled string_hash fs.len fs)
        × ((vs : SymTable) × (l.module_.vars ≡ some vs) × IsFiled string_hash vs.len vs)
  new_from_buffer-created no_pool self buffer m l keeps e =
      let start : Loading P = record { module_ = zero_module self; heap = no_pool; mem = m } in
      let (magic, read) = new_from_buffer-read no_pool self buffer m l e in
      let (l1, l2, mem1, funcs2, vars3) = read_module_data-parts buffer start l read in
      let (sizes, _) = setup_memory-IsRegion api _ l1 mem1 in
      let (script1, header1) = setup_memory-header _ l1 keeps mem1 in
      let (fs, has, count, filed) =
        setup_func_table-IsFiled api string_hash buffer keeps l1 l2 script1 funcs2 in
      let script2 = (setup_func_table-done api string_hash buffer keeps l1 l2 funcs2).2 ∙ script1 in
      let keeps_funcs = (setup_var_table-done api string_hash buffer keeps l2 l vars3).1 in
      let (vs, has', _, filed') =
        setup_var_table-IsFiled api string_hash buffer keeps l2 l script2 vars3 in
      (
        magic,
        sizes,
        (fs, keeps_funcs ∙ has, count ∙ ap (λ (h : Header). h.func_count) header1, filed),
        (vs, has', filed'),
      )
