-- ===== src/Emu/FdTable/Descriptors.antt =====
-- emu/fdtable.go: what `Open` and `Close` leave in the table.
use m1sim.Base.{
  ℕ, true, false, ◌+◌, ◌<◌, ◌≤◌, ◌^◌, ◌≡◌, ◌≢◌, ◌==◌, ◌⊎◌, if◌then◌else◌, leb, Option, none, some,
  some-injective, none-ne-some, Option-cases, List, add64, inl, inr, refl, sym, ap, subst, ◌∙◌,
  eq→==, ne→==, Bool-cases, ==→eq, ==→ne, leb→le, arith,
}
use m1sim.Emu.RegFile.{update}
use m1sim.Emu.FdTable.{
  FileError, Tried, failed, done, Host, FileDescriptor, FdTable, new_fd_table, get, open_fd,
  close_fd,
}

-- No descriptor was given out that is not below the next one, and each open one but the three
-- standard ones has a file of the host.
pub record IsValid {F : Type 0} (t : FdTable F) : Type 0 where
  pub standard : 3 ≤ t.next_fd
  pub unused : (fd : ℕ) → t.next_fd ≤ fd → t.fds fd ≡ none
  pub backed :
      (fd : ℕ) (e : FileDescriptor F)
      → t.fds fd ≡ some e
      → e.is_open ≡ true
      → 2 < fd
      → (f : F) × (e.host_file ≡ some f)

Tried-cases :
    {A : Type 0} (a : Tried A) → ((err : FileError) × (a ≡ failed err)) ⊎ ((x : A) × (a ≡ done x))
Tried-cases (failed err) = inl (err, refl)
Tried-cases (done x) = inr (x, refl)

module _ {A : Type 0} (f : ℕ → A) (k : ℕ) (v : A) where
  update_same : update f k v k ≡ v
  update_same = rw (eq→== k k refl) refl

  update_ne : (j : ℕ) → j ≢ k → update f k v j ≡ f j
  update_ne j h = rw (ne→== j k h) refl

module _ {F : Type 0} (t : FdTable F) where
  -- A table with another entry for fd.
  abbrev entered : ℕ → FileDescriptor F → ℕ → FdTable F
  entered fd e next = record { fds = update t.fds fd (some e); next_fd = next }

  entered-IsValid :
      (fd : ℕ) (e : FileDescriptor F) (next : ℕ)
      → IsValid t
      → fd < next
      → t.next_fd ≤ next
      → (e.is_open ≡ true → 2 < fd → (f : F) × (e.host_file ≡ some f))
      → IsValid (entered fd e next)
  entered-IsValid fd e next v l n b = record {
    standard = let s = v.standard in omega arith;
    unused =
        λ j h. update_ne t.fds fd (some e) j (λ q. absurd (omega arith)) ∙ v.unused j (omega arith);
    backed = λ j e' g o l'. elim (Bool-cases (j == fd)) [
      | inl h ↦
          let same = ==→eq j fd h in
          let q : e ≡ e' = some-injective _ _ (
            sym (update_same t.fds fd (some e))
            ∙ ap (λ i. update t.fds fd (some e) i) (sym same)
            ∙ g) in
          subst (λ d. (f : F) × (d.host_file ≡ some f)) q
            (b (ap (λ d. d.is_open) q ∙ o) (omega arith))
      | inr h ↦ v.backed j e' (sym (update_ne t.fds fd (some e) j (==→ne j fd h)) ∙ g) o l'
    ];
  }

  get-some :
      (fd : ℕ) (e : FileDescriptor F) → get fd t ≡ some e → (t.fds fd ≡ some e) × (e.is_open ≡ true)
  unfolding get
  get-some fd e h = elim (Option-cases (t.fds fd)) [
    | inl n ↦ absurd (none-ne-some _ (sym (rw (get, n) refl) ∙ h))
    | inr (e', n) ↦ elim (Bool-cases e'.is_open) [
      | inl o ↦
          let q : e' ≡ e = some-injective _ _ (sym (rw (get, n, o) refl) ∙ h) in
          (n ∙ ap some q, ap (λ d. d.is_open) (sym q) ∙ o)
      | inr o ↦ absurd (none-ne-some _ (sym (rw (get, n, o) refl) ∙ h))
    ]
  ]

  IsValid-below : IsValid t → (fd : ℕ) (e : FileDescriptor F) → t.fds fd ≡ some e → fd < t.next_fd
  IsValid-below v fd e h = elim (Bool-cases (leb t.next_fd fd)) [
    | inl b ↦ absurd (none-ne-some _ (sym (v.unused fd (leb→le t.next_fd fd b)) ∙ h))
    | inr b ↦ ground arith
  ]

  get-none : (fd : ℕ) → t.fds fd ≡ none → get fd t ≡ none
  unfolding get
  get-none fd h = rw (get, h) refl

  get-entered :
      (fd : ℕ) (e : FileDescriptor F) (next : ℕ)
      → get fd (entered fd e next) ≡ (if e.is_open then some e else none)
  unfolding get
  get-entered fd e next = rw (get, update_same t.fds fd (some e)) refl

pub new_fd_table-IsValid : (F : Type 0) → IsValid {F = F} new_fd_table
unfolding new_fd_table
new_fd_table-IsValid F = record {
  standard = omega arith;
  unused = λ fd h. ground arith;
  backed = λ fd e h o l.
      let none_there : (new_fd_table {F = F}).fds fd ≡ none = ground arith in
      absurd (none-ne-some _ (sym none_there ∙ h));
}

module _ {F W : Type 0} (host : Host F W) (t : FdTable F) (v : IsValid t) (w : W) where
  -- What an `Open` that the host grants leaves.
  abbrev pub Opened : List ℕ → ℕ → F → Tried ℕ × FdTable F × W → W → Type 0
  Opened path flags f a w' =
      (a.0 ≡ done t.next_fd)
      × (a.2 ≡ w')
      × (get t.next_fd t ≡ none)
      × (get t.next_fd a.1
          ≡ some (record { host_file = some f; path = path; flags = flags; is_open = true }))
      × ((j : ℕ) → j ≢ t.next_fd → a.1.fds j ≡ t.fds j)
      × IsValid a.1

  -- In a valid table whose numbers are not used up, an `Open` that the host grants gives a number
  -- that was not open, which is then open with the file of the host; every other entry stays, and
  -- the table is valid.
  pub open_fd-Opened :
      (path : List ℕ) (flags mode : ℕ) (f : F) (w' : W)
      → t.next_fd + 1 < 2 ^ 64
      → host.open_file path flags mode w ≡ (done f, w')
      → Opened path flags f (open_fd host path flags mode t w) w'
  unfolding open_fd
  open_fd-Opened path flags mode f w' h o =
      let entry : FileDescriptor F = record {
        host_file = some f;
        path = path;
        flags = flags;
        is_open = true;
      } in
      let n : add64 t.next_fd 1 ≡ t.next_fd + 1 = omega arith in
      let t' = entered t t.next_fd entry (add64 t.next_fd 1) in
      let e : open_fd host path flags mode t w ≡ (done t.next_fd, t', w') =
        rw (open_fd, ap (λ p. p.0) o) (ap (λ p. (done t.next_fd, t', p.1)) o) in
      subst (λ a. Opened path flags f a w') (sym e)
        (
          refl,
          refl,
          get-none t t.next_fd (v.unused t.next_fd (omega arith)),
          get-entered t t.next_fd entry (add64 t.next_fd 1),
          λ j d. update_ne t.fds t.next_fd (some entry) j d,
          entered-IsValid t t.next_fd entry (add64 t.next_fd 1) v (omega arith) (omega arith)
              (λ _ _. (f, refl)),
        )

  -- `Open` keeps the table valid, whatever the host says.
  pub open_fd-IsValid :
      (path : List ℕ) (flags mode : ℕ)
      → t.next_fd + 1 < 2 ^ 64
      → IsValid (open_fd host path flags mode t w).1
  unfolding open_fd
  open_fd-IsValid path flags mode h = elim (Tried-cases (host.open_file path flags mode w).0) [
    | inl (err, o) ↦ subst IsValid (sym (rw (open_fd, o) refl)) v
    | inr (f, o) ↦ subst IsValid (sym (rw (open_fd, o) refl)) (
        entered-IsValid t t.next_fd
          (record { host_file = some f; path = path; flags = flags; is_open = true })
          (add64 t.next_fd 1) v (omega arith) (omega arith) (λ _ _. (f, refl)))
  ]

  -- What a `Close` that succeeds leaves.
  abbrev pub Closed : ℕ → Option FileError × FdTable F × W → Type 0
  Closed fd a =
      (a.0 ≡ none) × (get fd a.1 ≡ none) × ((j : ℕ) → j ≢ fd → a.1.fds j ≡ t.fds j) × IsValid a.1

  -- After a `Close` that succeeds, of an open number above the standard ones in a valid table, the
  -- number is not open, every other entry stays, and the table is valid.
  pub close_fd-Closed :
      (fd : ℕ) (e : FileDescriptor F) (f : F) (w' : W)
      → get fd t ≡ some e
      → 2 < fd
      → e.host_file ≡ some f
      → host.close f w ≡ (none, w')
      → Closed fd (close_fd host fd t w)
  unfolding close_fd
  close_fd-Closed fd e f w' g l b c =
      let gone : FileDescriptor F = record e { host_file = none; is_open = false } in
      let big : leb fd 2 ≡ false = ground arith in
      let (in_table, _) = get-some t fd e g in
      let below : fd < t.next_fd = IsValid-below t v fd e in_table in
      let t' = entered t fd gone t.next_fd in
      let h : close_fd host fd t w ≡ (none, t', (host.close f w).1) =
        rw (close_fd, g, big, b, ap (λ p. p.0) c) refl in
      subst (λ a. Closed fd a) (sym h)
        (
          refl,
          get-entered t fd gone t.next_fd,
          λ j d. update_ne t.fds fd (some gone) j d,
          entered-IsValid t fd gone t.next_fd v below (omega arith) (λ o _. absurd (ground arith)),
        )

  -- `Close` keeps the table valid, whatever the host says.
  pub close_fd-IsValid : (fd : ℕ) → IsValid (close_fd host fd t w).1
  unfolding close_fd
  close_fd-IsValid fd = elim (Option-cases (get fd t)) [
    | inl n ↦ subst IsValid (sym (rw (close_fd, n) refl)) v
    | inr (e, g) ↦
        let (in_table, _) = get-some t fd e g in
        let below = IsValid-below t v fd e in_table in
        let gone : FileDescriptor F = record e { host_file = none; is_open = false } in
        let shut : FileDescriptor F = record e { is_open = false } in
        let ended =
          entered-IsValid t fd gone t.next_fd v below (omega arith)
            (λ o _. absurd (ground arith)) in
        elim (Bool-cases (leb fd 2)) [
          | inl l ↦ subst IsValid (sym (rw (close_fd, g, l) refl)) (
              entered-IsValid t fd shut t.next_fd v below (omega arith)
                (λ o _. absurd (ground arith)))
          | inr l ↦ elim (Option-cases e.host_file) [
            | inl n ↦ subst IsValid (sym (rw (close_fd, g, l, n) refl)) ended
            | inr (f, b) ↦ elim (Option-cases (host.close f w).0) [
              | inl c ↦ subst IsValid (sym (rw (close_fd, g, l, b, c) refl)) ended
              | inr (err, c) ↦ subst IsValid (sym (rw (close_fd, g, l, b, c) refl)) v
            ]
          ]
        ]
  ]
