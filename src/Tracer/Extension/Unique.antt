-- ===== src/Tracer/Extension/Unique.antt =====
-- Appending without duplicates, as `MergeResults` of internal/tracer/extension.go does.
use eth_fund_trace.Prelude.{
  ◌≡◌, refl, ap, ◌∙◌, Bool, true, false, ◌&&◌, ◌||◌, not, List, [], ◌∷◌, ◌++◌, String, str_eq,
  str_eq_iff, In, if◌then◌else◌, inl, inr, arith,
}
use eth_fund_trace.Tracer.Extension.{keys_of, is_seen, unseen, append_unique}

-- No key occurs twice.
unfoldable pub distinct : List String → Bool
distinct [] = true
distinct (key ∷ keys) = not (is_seen key keys) && distinct keys

module _ {A : Type 0} (key : A → String) where
  keys_of-append : (xs ys : List A) → keys_of key (xs ++ ys) ≡ keys_of key xs ++ keys_of key ys
  unfolding keys_of
  keys_of-append [] ys = refl
  keys_of-append (x ∷ xs) ys = ap (λ ks. key x ∷ ks) (keys_of-append xs ys)

  is_seen-append :
      (k : String) (ks js : List String) → is_seen k (ks ++ js) ≡ (is_seen k ks || is_seen k js)
  is_seen-append k [] js = refl
  is_seen-append k (j ∷ ks) js = ground (arith, is_seen-append k ks js)

  same_seen :
      (k j : String) (seen : List String) → str_eq j k ≡ true → is_seen j seen ≡ is_seen k seen
  same_seen k j seen e = ap (λ l. is_seen l seen) ((str_eq_iff j k).0 e)

  -- A key was seen or is appended exactly if it was seen or is a key of the extra elements.
  unseen_complete :
      (seen : List String) (k : String) (xs : List A)
      → (is_seen k seen || is_seen k (keys_of key (unseen key seen xs)))
        ≡ (is_seen k seen || is_seen k (keys_of key xs))
  unfolding unseen keys_of
  unseen_complete seen k [] = refl
  unseen_complete seen k (x ∷ xs) = ground (
    arith,
    same_seen k (key x) seen,
    unseen_complete seen k xs,
    unseen_complete (key x ∷ seen) k xs,
  )

  -- What is appended has no key that was seen.
  unseen-fresh :
      (seen : List String) (k : String) (xs : List A)
      → is_seen k seen ≡ true
      → is_seen k (keys_of key (unseen key seen xs)) ≡ false
  unfolding unseen keys_of
  unseen-fresh seen k [] h = refl
  unseen-fresh seen k (x ∷ xs) h =
      ground
        (arith, same_seen k (key x) seen, unseen-fresh seen k xs, unseen-fresh (key x ∷ seen) k xs)

  unseen-distinct :
      (seen : List String) (xs : List A) → distinct (keys_of key (unseen key seen xs)) ≡ true
  unfolding unseen keys_of distinct
  unseen-distinct seen [] = refl
  unseen-distinct seen (x ∷ xs) = ground (
    arith,
    (str_eq_iff (key x) (key x)).1 refl,
    unseen-fresh (key x ∷ seen) (key x) xs,
    unseen-distinct seen xs,
    unseen-distinct (key x ∷ seen) xs,
  )

  distinct-append :
      (ks seen : List String) (xs : List A)
      → distinct ks ≡ true
      → ((k : String) → is_seen k ks ≡ true → is_seen k seen ≡ true)
      → distinct (ks ++ keys_of key (unseen key seen xs)) ≡ true
  unfolding distinct
  distinct-append [] seen xs h sub = unseen-distinct seen xs
  distinct-append (k ∷ ks) seen xs h sub =
      let self = (str_eq_iff k k).1 refl in
      let was_seen : is_seen k seen ≡ true = sub k (ground (arith, self)) in
      ground (
        arith,
        is_seen-append k ks (keys_of key (unseen key seen xs)),
        unseen-fresh seen k xs was_seen,
        distinct-append ks seen xs (ground arith) (λ j e. sub j (ground (arith, e))),
      )

-- The keys of the result are those of the two lists.
pub append_unique-keys_of :
    {A : Type 0} (key : A → String) (current extra : List A) (k : String)
    → is_seen k (keys_of key (append_unique key current extra))
      ≡ (is_seen k (keys_of key current) || is_seen k (keys_of key extra))
unfolding append_unique
append_unique-keys_of key current extra k =
    let seen = keys_of key current in
    rw (keys_of-append key current (unseen key seen extra)) (
      is_seen-append key k seen (keys_of key (unseen key seen extra))
      ∙ unseen_complete key seen k extra)

unseen-all_seen :
    {A : Type 0} (key : A → String) (seen : List String) (xs : List A)
    → ((k : String) → is_seen k (keys_of key xs) ≡ true → is_seen k seen ≡ true)
    → unseen key seen xs ≡ []
unfolding unseen keys_of
unseen-all_seen key seen [] h = refl
unseen-all_seen key seen (x ∷ xs) h =
    let self = (str_eq_iff (key x) (key x)).1 refl in
    ground (
      arith,
      h (key x) (ground (arith, self)),
      unseen-all_seen key seen xs (λ k e. h k (ground (arith, e))),
    )

append-nil : {A : Type 0} (xs : List A) → xs ++ [] ≡ xs
append-nil [] = refl
append-nil (x ∷ xs) = ap (λ ys. x ∷ ys) (append-nil xs)

append_unique-seen :
    {A : Type 0} (key : A → String) (current extra : List A)
    → ((k : String) → is_seen k (keys_of key extra) ≡ true → is_seen k (keys_of key current) ≡ true)
    → append_unique key current extra ≡ current
unfolding append_unique
append_unique-seen key current extra h =
    rw (unseen-all_seen key (keys_of key current) extra h) (append-nil current)

-- Appending the same elements a second time changes nothing.
pub append_unique_twice :
    {A : Type 0} (key : A → String) (current extra : List A)
    → append_unique key (append_unique key current extra) extra ≡ append_unique key current extra
append_unique_twice key current extra =
    append_unique-seen key (append_unique key current extra) extra
      (λ k e. ground (arith, append_unique-keys_of key current extra k, e))

In-if :
    {A : Type 0} (Q : Type 0) (x : A) (c : Bool) (xs ys : List A)
    → (In x xs → Q)
    → (In x ys → Q)
    → In x (if c then xs else ys)
    → Q
In-if Q x true xs ys first second m = first m
In-if Q x false xs ys first second m = second m

In-behind :
    {A : Type 0} (x y : A) (xs ys : List A) → (In x ys → In x xs) → In x (y ∷ ys) → In x (y ∷ xs)
In-behind x y xs ys sub (inl e) = inl e
In-behind x y xs ys sub (inr later) = inr (sub later)

-- What is appended is of the extra elements.
unseen-In :
    {A : Type 0} (key : A → String) (seen : List String) (xs : List A) (x : A)
    → In x (unseen key seen xs)
    → In x xs
unfolding unseen
unseen-In key seen [] x m = m
unseen-In key seen (y ∷ xs) x m =
    In-if (In x (y ∷ xs)) x (is_seen (key y) seen) (unseen key seen xs)
      (y ∷ unseen key (key y ∷ seen) xs) (λ old. inr (unseen-In key seen xs x old))
      (In-behind x y xs _ (unseen-In key (key y ∷ seen) xs x)) m

-- Appending to elements with distinct keys leaves the elements as they are, in front of extra
-- elements; a key stands in the result exactly if it stands in one of the two lists, and no key
-- stands there twice.
pub append_unique-distinct :
    {A : Type 0} (key : A → String) (current extra : List A)
    → distinct (keys_of key current) ≡ true
    → let result = append_unique key current extra in
      ((added : List A) × (result ≡ current ++ added) × ((x : A) → In x added → In x extra))
      × (distinct (keys_of key result) ≡ true)
      × ((k : String)
          → is_seen k (keys_of key result)
            ≡ (is_seen k (keys_of key current) || is_seen k (keys_of key extra)))
unfolding append_unique
append_unique-distinct key current extra h =
    let seen = keys_of key current in
    (
      (unseen key seen extra, refl, λ x m. unseen-In key seen extra x m),
      rw (keys_of-append key current (unseen key seen extra))
          (distinct-append key seen seen extra h (λ k e. e)),
      λ k. append_unique-keys_of key current extra k,
    )
