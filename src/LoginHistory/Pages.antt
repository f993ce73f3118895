-- ===== src/LoginHistory/Pages.antt =====
-- app/login_history.py: the pages together are the whole result.
use sentinel_auth.Prelude.{
  ℕ, zero, suc, Bool, true, ◌-◌, ◌+◌, ◌*◌, ◌≤◌, List, [], ◌∷◌, ◌++◌, map, length, where_, count,
  Bool-cases, inl, inr, ◌≡◌, refl, ap, sym, ◌∙◌, arith,
}
use sentinel_auth.Core.{Outside, ok, WorldOf, ActionOf, pure, ◌>>=◌, respond}
use sentinel_auth.Detection.Tables.{LoginAttempt, DetectionDb}
use sentinel_auth.Pipeline.Features.{take}
use sentinel_auth.LoginHistory.{
  Search, LoginAttemptItem, attempt_to_dict, matches, newest_first, drop, found, check_search,
  list_login_attempts, if_given, is_one_of, search_outcomes, risk_levels, is_before,
}
use sentinel_auth.LoginHistory.Order.{
  IsNewestFirst, newest_first-IsNewestFirst, newest_first-count, length-newest_first,
}

suc-add : (m n : ℕ) → suc m + n ≡ suc (m + n)
suc-add m n = omega arith

zero-add : (n : ℕ) → 0 + n ≡ n
zero-add n = omega arith

back : (n : ℕ) → n + 1 - 1 ≡ n
back n = omega arith

one-mul : (n : ℕ) → 1 * n ≡ n
one-mul n = omega arith

zero-mul : (n : ℕ) → 0 * n ≡ 0
zero-mul n = omega arith

suc-mul : (m n : ℕ) → suc m * n ≡ n + m * n
suc-mul m n = grind arith

module _ {ℓ} {A : Type ℓ} where
  take-all : (n : ℕ) (xs : List A) → length xs ≤ n → take n xs ≡ xs
  take-all zero [] h = refl
  take-all zero (x ∷ xs) h = ground arith
  take-all (suc n) [] h = refl
  take-all (suc n) (x ∷ xs) h = ap (λ (ys : List A). x ∷ ys) (take-all n xs (omega arith))

  take-nothing : (n : ℕ) → take {A = A} n [] ≡ []
  take-nothing zero = refl
  take-nothing (suc n) = refl

  take-drop : (m n : ℕ) (xs : List A) → take m xs ++ take n (drop m xs) ≡ take (m + n) xs
  take-drop zero n xs = rw (zero-add n) refl
  take-drop (suc m) n [] = take-nothing n ∙ sym (take-nothing (suc m + n))
  take-drop (suc m) n (x ∷ xs) = rw (suc-add m n) (ap (λ (ys : List A). x ∷ ys) (take-drop m n xs))

  drop-drop : (k m : ℕ) (xs : List A) → drop m (drop k xs) ≡ drop (k + m) xs
  drop-drop zero m xs = rw (zero-add m) refl
  drop-drop (suc k) zero [] = rw (suc-add k 0) refl
  drop-drop (suc k) (suc m) [] = rw (suc-add k (suc m)) refl
  drop-drop (suc k) m (x ∷ xs) = rw (suc-add k m) (drop-drop k m xs)

  length-where_ : (p : A → Bool) (xs : List A) → length (where_ p xs) ≡ count p xs
  length-where_ p [] = refl
  length-where_ p (x ∷ xs) = elim (Bool-cases (p x)) [
    | inl t ↦ rw (t, length-where_ p xs) (omega arith)
    | inr t ↦ rw (t, length-where_ p xs) (omega arith)
  ]

  map-append {κ} :
      {B : Type κ} (f : A → B) (xs ys : List A) → map f (xs ++ ys) ≡ map f xs ++ map f ys
  map-append f [] ys = refl
  map-append f (x ∷ xs) ys = ap (λ (zs : List _). f x ∷ zs) (map-append f xs ys)

-- A caller that reads n pages one after the other, from the given page on.
abbrev pub read_pages :
    Outside → Search → (page n : ℕ) → ActionOf DetectionDb (List LoginAttemptItem)
read_pages outside s page zero = pure []
read_pages outside s page (suc n) = do
  r ← list_login_attempts outside (record s { page = page })
  rest ← read_pages outside s (page + 1) n
  pure (r.attempts ++ rest)

-- A search that is not refused: it asks for success or failure and for a risk level, and its window
-- is not empty.
abbrev pub IsAccepted : Search → Type 0
IsAccepted s =
    (if_given (is_one_of search_outcomes) s.outcome ≡ true)
    × (if_given (is_one_of risk_levels) s.risk_level ≡ true)
    × (is_before s.from_date s.to_date ≡ true)

module _ (outside : Outside) (s : Search) (accepted : IsAccepted s) where
  abbrev page_rows : ℕ → ℕ → DetectionDb → List LoginAttempt
  page_rows page n db = take (n * s.limit) (drop (page * s.limit) (found s db))

  listed :
      (page : ℕ) (w : WorldOf DetectionDb)
      → list_login_attempts outside (record s { page = page + 1 }) w ≡ (
        ok (record {
          attempts = map (attempt_to_dict outside) (page_rows page 1 w.working);
          total = length (found s w.working);
          page = page + 1;
          limit = s.limit;
        }),
        w,
      )
  unfolding list_login_attempts check_search matches
  listed page w = rw (accepted.0, accepted.1, accepted.2, back page, one-mul s.limit) refl

  block-end : (page : ℕ) → (page + 1) * s.limit ≡ page * s.limit + s.limit
  block-end page = grind arith

  consecutive :
      (page n : ℕ) (db : DetectionDb)
      → page_rows page 1 db ++ page_rows (page + 1) n db ≡ page_rows page (suc n) db
  consecutive page n db =
      let rows = drop (page * s.limit) (found s db) in
      rw
        (
          one-mul s.limit,
          block-end page,
          sym (drop-drop (page * s.limit) s.limit (found s db)),
          suc-mul n s.limit,
        )
        (take-drop s.limit (n * s.limit) rows)

  read-pages :
      (page n : ℕ) (w : WorldOf DetectionDb)
      → read_pages outside s (page + 1) n w
        ≡ (ok (map (attempt_to_dict outside) (page_rows page n w.working)), w)
  read-pages page zero w = rw (zero-mul s.limit) refl
  read-pages page (suc n) w =
      rw (listed page w, read-pages (page + 1) n w)
        (ap (λ (items : List LoginAttemptItem). (ok items, w))
          (sym (
              map-append (attempt_to_dict outside) (page_rows page 1 w.working)
                (page_rows (page + 1) n w.working))
            ∙ ap (map (attempt_to_dict outside)) (consecutive page n w.working)))

  -- Reading the pages from the first on gives every attempt that meets the filters once and no
  -- other, the newest first, as soon as the pages have room for as many attempts as there are; it
  -- writes nothing.
  pub read_pages_complete :
      (n : ℕ) (w : WorldOf DetectionDb)
      → count (matches s) w.committed.login_attempts ≤ n * s.limit
      → (rows : List LoginAttempt) × (respond (read_pages outside s 1 n) w
          ≡ (ok (map (attempt_to_dict outside) rows), record w { working = w.committed }))
        × IsNewestFirst rows
        × ((p : LoginAttempt → Bool)
            → count p rows ≡ count p (where_ (matches s) w.committed.login_attempts))
  read_pages_complete n w room =
      let opened : WorldOf DetectionDb = record w { working = w.committed } in
      let kept = where_ (matches s) w.committed.login_attempts in
      let fits : page_rows 0 n w.committed ≡ newest_first kept = rw (zero-mul s.limit) (
        take-all (n * s.limit) (newest_first kept) (
          rw (length-newest_first kept, length-where_ (matches s) w.committed.login_attempts)
            room)) in
      (
        newest_first kept,
        rw (read-pages 0 n opened, fits) refl,
        newest_first-IsNewestFirst kept,
        λ p. newest_first-count p kept,
      )
