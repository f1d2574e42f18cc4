-- ===== src/Io/Valid.antt =====
-- unix/core.c: the table of watchers between any two calls.
use sebbu_c_libuv.Base.{
  ℕ, zero, suc, ◌+◌, ◌-◌, ◌%◌, ◌^◌, ◌≤◌, ◌<◌, ◌≡◌, ◌≢◌, refl, sym, ap, ◌∙◌, true, false, ◌&&◌, some,
  ltb, leb, ◌==◌, ==_iff, if◌then◌else◌, arith, Bool-cases, inl, inr,
}
use sebbu_c_libuv.Io.{
  any, Slot, null, watcher, fake, Table, put, next_power_of_two, maybe_resize, is_null, holds,
}
use sebbu_c_libuv.Io.Power.{next_power_of_two-bounds}

-- The entries below `n` that are not NULL.
abbrev pub count : ℕ → (ℕ → Slot) → ℕ
count zero f = 0
count (suc n) f = count n f + (if is_null (f n) then 0 else 1)

-- `nfds` counts the entries of the table, and an entry is the watcher of that descriptor, with events
-- that it waits for.
pub record IsTable (t : Table) : Type 0 where
  pub counted : t.nfds ≡ count t.nwatchers t.watchers
  pub owner :
      (fd i : ℕ)
      → fd < t.nwatchers
      → holds i (t.watchers fd) ≡ true
      → ((t.ios i).fd ≡ some fd) × (any (t.ios i).pevents ≡ true)
  pub empty : t.allocated ≡ false → t.nwatchers ≡ 0

count-above : (n fd : ℕ) (f : ℕ → Slot) (s : Slot) → n ≤ fd → count n (put f fd s) ≡ count n f
count-above zero fd f s h = refl
count-above (suc n) fd f s h =
    let ne : (n == fd) ≡ false = ground arith in rw (ne, count-above n fd f s (omega arith)) refl

pub count-put :
    (n fd : ℕ) (f : ℕ → Slot) (s : Slot)
    → fd < n
    → count n (put f fd s) + (if is_null (f fd) then 0 else 1)
      ≡ count n f + (if is_null s then 0 else 1)
count-put zero fd f s h = absurd (omega arith)
count-put (suc n) fd f s h = elim (Bool-cases (n == fd)) [
  | inl e ↦
      let is : n ≡ fd = (==_iff n fd).0 e in
      rw (e, count-above n fd f s (omega (arith, is)), is) (omega arith)
  | inr e ↦ rw e (omega (arith, count-put n fd f s (ground arith)))
]

count-same : (n : ℕ) (f g : ℕ → Slot) → ((i : ℕ) → i < n → f i ≡ g i) → count n f ≡ count n g
count-same zero f g h = refl
count-same (suc n) f g h =
    rw (h n (omega arith), count-same n f g (λ i k. h i (omega (arith, k)))) refl

-- A table that grew by NULL entries.
count-grown :
    (d n : ℕ) (f : ℕ → Slot)
    → ((i : ℕ) → n ≤ i → i < d + n → is_null (f i) ≡ true)
    → count (d + n) f ≡ count n f
count-grown zero n f h = ap (λ k. count k f) (omega arith)
count-grown (suc d) n f h =
    let e : suc d + n ≡ suc (d + n) = omega arith in
    let last : is_null (f (d + n)) ≡ true = h (d + n) (omega arith) (omega arith) in
    let rest = count-grown d n f (λ i k l. h i k (omega (arith, l))) in
    ap (λ k. count k f) e ∙ rw last (omega (arith, rest))

pub null_holds : (i : ℕ) (s : Slot) → is_null s ≡ true → holds i s ≢ true
null_holds i null h k = cc
null_holds i (watcher j) h k = cc
null_holds i (fake j) h k = cc

-- The table is grown to hold the descriptor, if need be, and holds what it held.
pub record Resized (len : ℕ) (t g : Table) : Type 0 where
  pub valid : IsTable g
  pub room : len ≤ g.nwatchers
  pub larger : t.nwatchers ≤ g.nwatchers
  pub same : (fd : ℕ) → fd < t.nwatchers → g.watchers fd ≡ t.watchers fd
  pub fresh : (fd : ℕ) → t.nwatchers ≤ fd → fd < g.nwatchers → is_null (g.watchers fd) ≡ true
  pub nfds : g.nfds ≡ t.nfds
  pub ios : g.ios ≡ t.ios
  pub queue : g.watcher_queue ≡ t.watcher_queue

grown-Resized :
    (len n : ℕ) (f : ℕ → Slot) (t : Table)
    → IsTable t
    → len ≤ n
    → t.nwatchers ≤ n
    → ((i : ℕ) → i < t.nwatchers → f i ≡ t.watchers i)
    → ((i : ℕ) → t.nwatchers ≤ i → i < n → is_null (f i) ≡ true)
    → Resized len t (record t { allocated = true; watchers = f; nwatchers = n })
grown-Resized len n f t v room larger same fresh =
    let e : n - t.nwatchers + t.nwatchers ≡ n = omega arith in
    let grown = count-grown (n - t.nwatchers) t.nwatchers f (λ i k l. fresh i k (omega arith)) in
    record {
      valid = record {
        counted =
            v.counted
            ∙ sym (count-same t.nwatchers f t.watchers same)
            ∙ sym grown
            ∙ ap (λ k. count k f) e;
        owner = λ fd i h k. elim (Bool-cases (ltb fd t.nwatchers)) [
          | inl low ↦ v.owner fd i (ground arith) (ap (holds i) (sym (same fd (ground arith))) ∙ k)
          | inr high ↦ absurd (null_holds i (f fd) (fresh fd (ground arith) h) k)
        ];
        empty = λ h. absurd cc;
      };
      room = room;
      larger = larger;
      same = same;
      fresh = fresh;
      nfds = refl;
      ios = refl;
      queue = refl;
    }

pub maybe_resize-Resized :
    (garbage : ℕ → Slot) (len : ℕ) (t : Table)
    → len + 2 ≤ 2147483648
    → IsTable t
    → Resized len t (maybe_resize garbage len t)
unfolding maybe_resize
maybe_resize-Resized garbage len t small v = elim (Bool-cases (leb len t.nwatchers)) [
  | inl fits ↦ rw fits (record {
    valid = v;
    room = ground arith;
    larger = omega arith;
    same = λ fd h. refl;
    fresh = λ fd h k. absurd (omega arith);
    nfds = refl;
    ios = refl;
    queue = refl;
  })
  | inr short ↦
      let list = if t.allocated then t.watchers t.nwatchers else null in
      let two = if t.allocated then t.watchers (t.nwatchers + 1) else null in
      let n = (next_power_of_two ((len + 2) % 2 ^ 32) + 2 ^ 32 - 2) % 2 ^ 32 in
      let grown : ℕ → Slot =
        λ i. if t.allocated && ltb i (t.nwatchers + 2) then t.watchers i else garbage i in
      let cleared : ℕ → Slot = λ i. if leb t.nwatchers i && ltb i n then null else grown i in
      let whole : (len + 2) % 2 ^ 32 ≡ len + 2 = omega arith in
      let bounds = next_power_of_two-bounds ((len + 2) % 2 ^ 32) (omega arith) (omega arith) in
      let room : len ≤ n = omega (arith, bounds.0, bounds.1, whole) in
      let more : t.nwatchers < n = ground (arith, room) in
      let held : (i : ℕ) → i < t.nwatchers → t.allocated ≡ true = λ i h.
        elim (Bool-cases t.allocated) [
          | inl y ↦ y
          | inr z ↦ absurd (let e = v.empty z in omega arith)
        ] in
      rw short (
        grown-Resized len n (put (put cleared n list) (n + 1) two) t v room (omega (arith, more))
          (λ i h. (let y = held i h in ground (arith, more))) (λ i h k. ground arith))
]
