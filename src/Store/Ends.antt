-- ===== src/Store/Ends.antt =====
-- Where an action ends: a rule for each way to build an action, so that a property of a method is
-- proved along its `do` block.
use guitar_online.Base.{
  Bool, true, false, String, Option, none, some, ◌≡◌, refl, sym, subst, if◌then◌else◌,
}
use guitar_online.Store.Session.{
  Db, Error, business, not_found, unauthorized, conflict, integrity, http_exception, IsBusiness,
  Result, ok, err, handle, except_business, Exec, pure, raise, gets, or_raise, raise_if, modify,
  if_found, continue, ◌>>=◌,
}

-- `m`, run on `d`, returns or raises with a result and a state of which `P` holds.
pub record Ends {A : Type 0} (P : Result A → Db → Type 0) (m : Exec A) (d : Db) : Type 0 where
  pub at : P (m d).0 (m d).1

module _ {A : Type 0} {P : Result A → Db → Type 0} {d : Db} where
  pub Ends-pure : (a : A) → P (ok a) d → Ends P (pure a) d
  unfolding ◌>>=◌
  Ends-pure a h = record { at = h }

  pub Ends-raise : (e : Error) → P (err e) d → Ends P (raise e) d
  unfolding ◌>>=◌
  Ends-raise e h = record { at = h }

  pub Ends-if :
      (c : Bool) (m n : Exec A)
      → (c ≡ true → Ends P m d)
      → (c ≡ false → Ends P n d)
      → Ends P (if c then m else n) d
  Ends-if true m n hm hn = hm refl
  Ends-if false m n hm hn = hn refl

  pub Ends-if_found :
      {B : Type 0} (o : Option B) (m : Exec A) (f : B → Exec A)
      → (o ≡ none → Ends P m d)
      → ((b : B) → o ≡ some b → Ends P (f b) d)
      → Ends P (if_found o m f) d
  unfolding ◌>>=◌
  Ends-if_found none m f hm hf = hm refl
  Ends-if_found (some b) m f hm hf = hf b refl

module _ {A B : Type 0} {P : Result B → Db → Type 0} {d : Db} where
  pub Ends-gets : (f : Db → A) (k : A → Exec B) → Ends P (k (f d)) d → Ends P (gets f >>= k) d
  unfolding ◌>>=◌
  Ends-gets f k h = record { at = h.at }

  pub Ends-or_raise :
      (o : Option A) (e : Error) (k : A → Exec B)
      → (o ≡ none → P (err e) d)
      → ((a : A) → o ≡ some a → Ends P (k a) d)
      → Ends P (or_raise o e >>= k) d
  unfolding ◌>>=◌
  Ends-or_raise none e k miss hit = record { at = miss refl }
  Ends-or_raise (some a) e k miss hit = record { at = (hit a refl).at }

  pub Ends-pure_bind : (a : A) (k : A → Exec B) → Ends P (k a) d → Ends P (pure a >>= k) d
  unfolding ◌>>=◌
  Ends-pure_bind a k h = record { at = h.at }

  pub Ends-raise_bind : (e : Error) (k : A → Exec B) → P (err e) d → Ends P (raise e >>= k) d
  unfolding ◌>>=◌
  Ends-raise_bind e k h = record { at = h }

  pub Ends-if_bind :
      (c : Bool) (m n : Exec A) (k : A → Exec B)
      → (c ≡ true → Ends P (m >>= k) d)
      → (c ≡ false → Ends P (n >>= k) d)
      → Ends P ((if c then m else n) >>= k) d
  Ends-if_bind true m n k hm hn = hm refl
  Ends-if_bind false m n k hm hn = hn refl

  continue-at :
      (r : Result A) (k : A → Exec B) (Q : Result A → Db → Type 0)
      → Q r d
      → ((e : Error) → Q (err e) d → P (err e) d)
      → ((a : A) → Q (ok a) d → Ends P (k a) d)
      → P (continue r k d).0 (continue r k d).1
  continue-at (ok a) k Q q bad good = (good a q).at
  continue-at (err e) k Q q bad good = bad e q

module _ {A B : Type 0} {P : Result B → Db → Type 0} {d : Db} where
  -- After an action of which a fact is known, in either outcome.
  pub Ends-bind :
      (m : Exec A) (k : A → Exec B) (Q : Result A → Db → Type 0)
      → Ends Q m d
      → ((e : Error) (d' : Db) → Q (err e) d' → P (err e) d')
      → ((a : A) (d' : Db) → Q (ok a) d' → Ends P (k a) d')
      → Ends P (m >>= k) d
  unfolding ◌>>=◌
  Ends-bind m k Q hm bad good = record {
    at = continue-at (m d).0 k Q hm.at (λ e. bad e (m d).1) (λ a. good a (m d).1);
  }

module _ {A B : Type 0} {P : Result B → Db → Type 0} {d : Db} where
  -- After an action whose outcome is known.
  pub Ends-run :
      (m : Exec A) (k : A → Exec B) (a : A) (e : Db)
      → m d ≡ (ok a, e)
      → Ends P (k a) e
      → Ends P (m >>= k) d
  unfolding ◌>>=◌
  Ends-run m k a e run h = record {
    at = subst (λ o. P (continue o.0 k o.1).0 (continue o.0 k o.1).1) (sym run) h.at;
  }

-- What a check does: it leaves the state alone, and what it returns has been tested.
abbrev pub Checked : {A : Type 0} → Db → (A → Type 0) → Result A → Db → Type 0
Checked d Q (ok a) d' = (d' ≡ d) × Q a
Checked d Q (err e) d' = d' ≡ d

module _ {A B : Type 0} {P : Result B → Db → Type 0} {d : Db} where
  pub Ends-check :
      (m : Exec A) (k : A → Exec B) (Q : A → Type 0)
      → Ends (Checked d Q) m d
      → ((e : Error) → P (err e) d)
      → ((a : A) → Q a → Ends P (k a) d)
      → Ends P (m >>= k) d
  Ends-check m k Q hm bad good =
      Ends-bind m k (Checked d Q) hm (λ e d' same. subst (P (err e)) (sym same) (bad e))
        (λ a d' q. subst (Ends P (k a)) (sym q.0) (good a q.1))

module _ {B : Type 0} {P : Result B → Db → Type 0} {d : Db} where
  pub Ends-raise_if :
      (c : Bool) (e : Error) (k : Unit {0} → Exec B)
      → (c ≡ true → P (err e) d)
      → (c ≡ false → Ends P (k tt) d)
      → Ends P (raise_if c e >>= k) d
  unfolding ◌>>=◌
  Ends-raise_if true e k bad good = record { at = bad refl }
  Ends-raise_if false e k bad good = record { at = (good refl).at }

  pub Ends-modify :
      (f : Db → Db) (k : Unit {0} → Exec B) → Ends P (k tt) (f d) → Ends P (modify f >>= k) d
  unfolding ◌>>=◌
  Ends-modify f k h = record { at = h.at }

module _ {A B C : Type 0} where
  continue-assoc :
      (P : Result C → Db → Type 0) (r : Result A) (f : A → Exec B) (k : B → Exec C) (d : Db)
      → let o = continue r (λ a. f a >>= k) d in
        P o.0 o.1 → let o = (continue r f >>= k) d in P o.0 o.1
  unfolding ◌>>=◌
  continue-assoc P (ok a) f k d h = h
  continue-assoc P (err e) f k d h = h

  pub Ends-assoc :
      {P : Result C → Db → Type 0} (m : Exec A) (f : A → Exec B) (k : B → Exec C) (d : Db)
      → Ends P (m >>= λ a. f a >>= k) d
      → Ends P ((m >>= f) >>= k) d
  unfolding ◌>>=◌
  Ends-assoc {P} m f k d h = record { at = continue-assoc P (m d).0 f k (m d).1 h.at }

pub Ends-mono :
    {A : Type 0} {d : Db} (P Q : Result A → Db → Type 0) (m : Exec A)
    → ((r : Result A) (d' : Db) → P r d' → Q r d')
    → Ends P m d
    → Ends Q m d
Ends-mono {d = d} P Q m f h = record { at = f (m d).0 (m d).1 h.at }

-- An action whose outcome is known.
pub Ends-known :
    {A : Type 0} {P : Result A → Db → Type 0} {d : Db} (m : Exec A) (r : Result A) (e : Db)
    → m d ≡ (r, e)
    → P r e
    → Ends P m d
Ends-known {P} m r e run h = record { at = subst (λ o. P o.0 o.1) (sym run) h }

pub Ends-modify_last :
    {P : Result (Unit {0}) → Db → Type 0} {d : Db} (f : Db → Db)
    → P (ok tt) (f d)
    → Ends P (modify f) d
unfolding ◌>>=◌
Ends-modify_last f h = record { at = h }

module _ {A B : Type 0} {P : Result B → Db → Type 0} {d : Db} where
  Ends-some :
      (a : A) (e : Error) (k : A → Exec B) → Ends P (k a) d → Ends P (or_raise (some a) e >>= k) d
  unfolding ◌>>=◌
  Ends-some a e k h = record { at = h.at }

  -- A value that is known to be there.
  pub Ends-given :
      (o : Option A) (e : Error) (k : A → Exec B) (a : A)
      → o ≡ some a
      → Ends P (k a) d
      → Ends P (or_raise o e >>= k) d
  Ends-given o e k a given h =
      subst (λ o. Ends P (or_raise o e >>= k) d) (sym given) (Ends-some a e k h)

  -- A query that is known to find a row.
  pub Ends-found :
      (f : Db → Option A) (e : Error) (k : A → Exec B) (a : A)
      → f d ≡ some a
      → Ends P (k a) d
      → Ends P (gets f >>= λ o. or_raise o e >>= k) d
  Ends-found f e k a found h =
      Ends-gets f (λ o. or_raise o e >>= k) (Ends-given (f d) e k a found h)

module _ {B : Type 0} {P : Result B → Db → Type 0} {d : Db} where
  -- A guard that is known to let through.
  pub Ends-pass :
      (c : Bool) (e : Error) (k : Unit {0} → Exec B)
      → c ≡ false
      → Ends P (k tt) d
      → Ends P (raise_if c e >>= k) d
  unfolding ◌>>=◌
  Ends-pass c e k h good =
      subst (λ c. Ends P (raise_if c e >>= k) d) (sym h) (record { at = good.at })

  -- A branch that is known.
  pub Ends-then : (c : Bool) (m n : Exec B) → c ≡ true → Ends P m d → Ends P (if c then m else n) d
  Ends-then c m n h good = subst (λ c. Ends P (if c then m else n) d) (sym h) good

  pub Ends-else : (c : Bool) (m n : Exec B) → c ≡ false → Ends P n d → Ends P (if c then m else n) d
  Ends-else c m n h good = subst (λ c. Ends P (if c then m else n) d) (sym h) good

module _ {A : Type 0} {P : Result A → Db → Type 0} where
  handle-at :
      (r : Result A) (handler : String → Exec A) (Q : Result A → Type 0) (d : Db)
      → Q r
      → ((a : A) → Q (ok a) → P (ok a) d)
      → ((e : Error) → Q (err e) → IsBusiness e)
      → ((message : String) → Q (err (business message)) → Ends P (handler message) d)
      → P (handle r handler d).0 (handle r handler d).1
  handle-at (ok a) handler Q d q good bad handled = good a q
  handle-at (err (business message)) handler Q d q good bad handled = (handled message q).at
  handle-at (err (not_found message)) handler Q d q good bad handled = absurd (bad _ q)
  handle-at (err (unauthorized message)) handler Q d q good bad handled = absurd (bad _ q)
  handle-at (err (conflict message)) handler Q d q good bad handled = absurd (bad _ q)
  handle-at (err (http_exception status_code detail)) handler Q d q good bad handled =
      absurd (bad _ q)
  handle-at (err integrity) handler Q d q good bad handled = absurd (bad _ q)

  -- An action whose exceptions are all handled.
  pub Ends-except_business :
      {d : Db} (m : Exec A) (handler : String → Exec A) (Q : Result A → Db → Type 0)
      → Ends Q m d
      → ((a : A) (d' : Db) → Q (ok a) d' → P (ok a) d')
      → ((e : Error) (d' : Db) → Q (err e) d' → IsBusiness e)
      → ((message : String) (d' : Db) → Q (err (business message)) d' → Ends P (handler message) d')
      → Ends P (except_business m handler) d
  unfolding except_business
  Ends-except_business {d} m handler Q h good bad handled = record {
    at =
        handle-at (m d).0 handler (λ r. Q r (m d).1) (m d).1 h.at (λ a. good a (m d).1)
          (λ e. bad e (m d).1) (λ message. handled message (m d).1);
  }
