-- ===== src/Emu/Syscall/Paths.antt =====
-- emu/syscall.go: `readString`.
use m1sim.Base.{
  ℕ, zero, suc, true, false, ◌≡◌, ◌≢◌, ◌<◌, ◌+◌, ◌^◌, ◌==◌, ◌∷◌, refl, ap, ap₂, sym, ◌∙◌, add64,
  eq→==, ne→==, arith,
}
use m1sim.Emu.Memory.{Memory, read8, read_bytes}
use m1sim.Emu.Syscall.{read_string}

-- The bytes from an address that is itself i after addr.
read_bytes-from :
    (n i addr : ℕ) (m : Memory) → read_bytes n i (add64 addr 1) m ≡ read_bytes n (i + 1) addr m
unfolding read_bytes
read_bytes-from zero i addr m = refl
read_bytes-from (suc n) i addr m =
    let e : add64 (add64 addr 1) i ≡ add64 addr (i + 1) = omega arith in
    ap₂ (λ x xs. x ∷ xs) (ap m e) (read_bytes-from n (i + 1) addr m)

-- From an address that is n bytes before a 0 byte, with none between, the loop of `readString` ends
-- within n + 1 rounds with those n bytes.
pub read_string_lem :
    (fuel n addr : ℕ) (m : Memory)
    → n < fuel
    → addr < 2 ^ 64
    → ((i : ℕ) → i < n → m (add64 addr i) ≢ 0)
    → m (add64 addr n) ≡ 0
    → read_string fuel addr m ≡ read_bytes n 0 addr m
unfolding read_string read_bytes read8
read_string_lem zero n addr m l b h z = absurd (omega arith)
read_string_lem (suc fuel) zero addr m l b h z =
    let e : add64 addr 0 ≡ addr = omega arith in
    let first : (read8 addr m == 0) ≡ true = eq→== (m addr) 0 (sym (ap m e) ∙ z) in
    rw (read_string, first) refl
read_string_lem (suc fuel) (suc n) addr m l b h z =
    let e : add64 addr 0 ≡ addr = omega arith in
    let first : (read8 addr m == 0) ≡ false =
      ne→== (m addr) 0 (λ q. h 0 (omega arith) (ap m e ∙ q)) in
    let next : (i : ℕ) → add64 (add64 addr 1) i ≡ add64 addr (suc i) = λ i. omega arith in
    let rest =
      read_string_lem fuel n (add64 addr 1) m (omega arith) (omega arith)
        (λ i k q. h (suc i) (omega arith) (sym (ap m (next i)) ∙ q)) (ap m (next n) ∙ z) in
    rw (read_string, first)
      (ap₂ (λ x xs. x ∷ xs) (ap m (sym e)) (rest ∙ read_bytes-from n 0 addr m))
