-- ===== src/Deploy/Releases/Laws.antt =====
-- Paging finds every release: the pages together are the whole list, each name once.
use native.Mathlib.Nat.{suc-add}
use mathlib.Core.List.{append-nil, append_assoc}
use nf_orchestrator.Prelude.{
  ℕ, zero, suc, ◌+◌, ◌-◌, ◌*◌, ◌≤◌, ◌<◌, ◌≡◌, refl, ap, sym, ◌∙◌, Bool, true, false, not, ◌||◌,
  List, [], ◌∷◌, ◌++◌, some, arith, length, take, drop, all, ltb, min, if◌then◌else◌, length-take,
  length-drop, tests, Bool-cases, inl, inr, and-eq-true,
}
use nf_orchestrator.Text.{Text, text_eq, one_of}
use nf_orchestrator.Text.Laws.{text_eq_iff}
use nf_orchestrator.Errors.{ok}
use nf_orchestrator.Host.{Host, State}
use nf_orchestrator.Deploy.Releases.{update, list_batch, list_from, list_releases}

update-append : (names xs ys : List Text) → update names (xs ++ ys) ≡ update (update names xs) ys
unfolding update
update-append names [] ys = refl
update-append names (x ∷ xs) ys =
    update-append (if one_of x names then names else names ++ x ∷ []) xs ys

take_nil : {A : Type 0} (n : ℕ) → take {A = A} n [] ≡ []
take_nil zero = refl
take_nil (suc n) = refl

take-add : {A : Type 0} (m n : ℕ) (xs : List A) → take (m + n) xs ≡ take m xs ++ take n (drop m xs)
take-add zero n xs = ap (λ k. take k xs) (omega arith)
take-add (suc m) n [] = rw (suc-add, take_nil n)
take-add (suc m) n (x ∷ xs) = rw suc-add (ap (λ l. x ∷ l) (take-add m n xs))

take_all : {A : Type 0} (n : ℕ) (xs : List A) → length xs ≤ n → take n xs ≡ xs
take_all zero [] h = refl
take_all zero (x ∷ xs) h = absurd (omega arith)
take_all (suc n) [] h = refl
take_all (suc n) (x ∷ xs) h = ap (λ l. x ∷ l) (take_all n xs (omega arith))

-- No name stands twice.
abbrev pub IsDistinct : List Text → Type 0
IsDistinct [] = Unit
IsDistinct (n ∷ ns) = (one_of n ns ≡ false) × IsDistinct ns

one_of-snoc :
    (m n : Text) (names : List Text) → one_of m (names ++ n ∷ []) ≡ (one_of m names || text_eq m n)
unfolding one_of
one_of-snoc m n [] = ground arith
one_of-snoc m n (x ∷ xs) = ground (arith, one_of-snoc m n xs)

abbrev are_new : List Text → List Text → Bool
are_new names ns = all (λ n. not (one_of n names)) ns

are_new-snoc :
    (names ns : List Text) (n : Text)
    → are_new names ns ≡ true
    → one_of n ns ≡ false
    → are_new (names ++ n ∷ []) ns ≡ true
unfolding one_of
are_new-snoc names [] n new other = refl
are_new-snoc names (m ∷ ns) n new other =
    ground (arith, one_of-snoc m n names, are_new-snoc names ns n, text_eq_iff m n, text_eq_iff n m)

update-distinct :
    (names ns : List Text) → are_new names ns ≡ true → IsDistinct ns → update names ns ≡ names ++ ns
unfolding update
update-distinct names [] new distinct = sym (append-nil names)
update-distinct names (n ∷ ns) new (out, distinct) =
    let (absent, rest) = and-eq-true (not (one_of n names)) (are_new names ns) new in
    elim (Bool-cases (one_of n names)) [
      | inl there ↦ ground arith
      | inr none' ↦ rw none' (
          update-distinct (names ++ n ∷ []) ns (are_new-snoc names ns n rest out) distinct
          ∙ append_assoc names (n ∷ []) ns)
    ]

are_new-nil : (ns : List Text) → are_new [] ns ≡ true
unfolding one_of
are_new-nil [] = refl
are_new-nil (n ∷ ns) = are_new-nil ns

module _ (h : Host) (page : ℕ) (releases : List Text) where
  -- helm's documented paging: from an offset, up to `page` names of its list. It is asked only at
  -- the multiples of `page` that are not beyond the list.
  abbrev pub Serves : Type 0
  Serves =
      (k : ℕ) (s : State)
      → k * page ≤ length releases
      → (list_batch h page (k * page) s).0 ≡ ok (take page (drop (k * page) releases))

  -- The names read so far and a page more.
  update-page :
      (offset : ℕ)
      → update (update [] (take offset releases)) (take page (drop offset releases))
        ≡ update [] (take (offset + page) releases)
  update-page offset =
      rw (take-add offset page releases)
        (sym (update-append [] (take offset releases) (take page (drop offset releases))))

  length-page :
      (offset : ℕ) → length (take page (drop offset releases)) ≡ min page (length releases - offset)
  length-page offset =
      length-take page (drop offset releases) ∙ ap (min page) (length-drop offset releases)

  served_at :
      Serves
      → (k offset : ℕ) (s : State) → offset ≡ k * page
      → offset ≤ length releases
      → (list_batch h page offset s).0 ≡ ok (take page (drop offset releases))
  served_at serves k offset s e le = rw e (serves k s (rw e at le))

  list_from_lem :
      Serves
      → 0 < page
      → (fuel k offset : ℕ) (s : State) → offset ≡ k * page
      → offset ≤ length releases
      → length releases < offset + fuel * page
      → (list_from h fuel page offset (update [] (take offset releases)) s).0
        ≡ ok (some (update [] releases))
  unfolding list_from
  list_from_lem serves pos zero k offset s e le enough = absurd (omega arith)
  list_from_lem serves pos (suc fuel) k offset s e le enough =
      let served = served_at serves k offset s e le in
      elim (Bool-cases (ltb (length (take page (drop offset releases))) page)) [
        | inl short ↦
            let end : length releases ≤ offset + page = omega (tests, length-page offset) in
            rw (served, short, update-page offset, take_all (offset + page) releases end)
        | inr full ↦
            let beyond : offset + page ≤ length releases = omega (tests, length-page offset) in
            rw (served, full, update-page offset)
              (list_from_lem serves pos fuel (suc k) (offset + page) (list_batch h page offset s).1
                (omega arith) beyond (omega arith))
      ]

  -- With helm serving a list of distinct names by pages of at least one, and fuel for more than
  -- the list fills, the loop ends, and its result is that list: none is missing past a page's end,
  -- none is twice in it, and the order is helm's.
  pub list_releases-all :
      Serves
      → 0 < page
      → IsDistinct releases
      → (fuel : ℕ) (s : State) → length releases < fuel * page
      → (list_releases h fuel page s).0 ≡ ok (some releases)
  unfolding list_releases update
  list_releases-all serves pos distinct fuel s enough =
      list_from_lem serves pos fuel 0 0 s (omega arith) (omega arith) (omega arith)
      ∙ ap (λ ns. ok (some ns)) (update-distinct [] releases (are_new-nil releases) distinct)
