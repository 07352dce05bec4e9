-- ===== src/Esp32/Ends.antt =====
-- Maixduino_esp32/main/CommandHandler.cpp: rules for code that starts with a given
-- table of sockets.
use kendryte_k210_base_proje.Prelude.{
  ℕ, Bool, true, false, Option, none, some, List, [], ◌∷◌, ◌≡◌, refl, sym, ap, subst, ◌∙◌,
  if◌then◌else◌, get_elem?,
}
use kendryte_k210_base_proje.Memory.{put}
use kendryte_k210_base_proje.Esp32.Server.{
  Server, SocketType, M, ◌>>=◌, fetch, gets, socket_type, set_socket_type,
}
use kendryte_k210_base_proje.Esp32.Sockets.{first_empty, free_socket}
use kendryte_k210_base_proje.Esp32.Quiet.{
  Leaves, Leaves-mono, Quiet, quiet, Quiet-pure, Quiet-bind, Quiet-answer, Quiet-set_keys,
  Quiet-call, Quiet-ask,
}

module _ {W : Type 0} (ts : List SocketType) (R : List SocketType → Type 0) where
  -- started with the table `ts`, the code ends with a table of which `R` holds, or faults
  pub record Ends {A : Type 0} (m : M W A) : Type 0 where
    pub ends : (s : Server W) → s.socket_types ≡ ts → Leaves (m s) (λ _ us. R us)

  Leaves-first :
      {A B : Type 0} (r : Option (A × Server W)) (k : A → M W B)
      → Leaves r (λ _ us. us ≡ ts)
      → ((a : A) → Ends (k a))
      → Leaves (elim r [ none ↦ none | some (a, s) ↦ k a s ]) (λ _ us. R us)
  Leaves-first none k h hk = tt
  Leaves-first (some (a, s)) k h hk = (hk a).ends s h

  Leaves-last :
      {A B : Type 0} (r : Option (A × Server W)) (k : A → M W B)
      → Leaves r (λ _ us. R us)
      → ((a : A) → Quiet (k a))
      → Leaves (elim r [ none ↦ none | some (a, s) ↦ k a s ]) (λ _ us. R us)
  Leaves-last none k h hk = tt
  Leaves-last (some (a, s)) k h hk = Leaves-mono (k a s) (λ _ us e. rw e h) ((hk a).same s)

  pub Ends-first :
      {A B : Type 0} (m : M W A) (k : A → M W B) → Quiet m → ((a : A) → Ends (k a)) → Ends (m >>= k)
  unfolding ◌>>=◌
  Ends-first m k h hk = record {
    ends = λ s e. Leaves-first (m s) k (Leaves-mono (m s) (λ _ us p. p ∙ e) (h.same s)) hk;
  }

  pub Ends-last :
      {A B : Type 0} (m : M W A) (k : A → M W B) → Ends m → ((a : A) → Quiet (k a)) → Ends (m >>= k)
  unfolding ◌>>=◌
  Ends-last m k h hk = record { ends = λ s e. Leaves-last (m s) k (h.ends s e) hk }

  pub Ends-Quiet : {A : Type 0} (m : M W A) → R ts → Quiet m → Ends m
  Ends-Quiet m h q = record {
    ends = λ s e. Leaves-mono (m s) (λ _ us p. subst R (sym (p ∙ e)) h) (q.same s);
  }

  pub Ends-free_socket :
      {B : Type 0} (k : ℕ → M W B) → Ends (k (first_empty 0 ts)) → Ends (free_socket >>= k)
  unfolding free_socket gets ◌>>=◌
  Ends-free_socket k h = record { ends = λ s e. rw (ap (first_empty 0) e) (h.ends s e) }

  pub Ends-set_socket_type :
      (i : ℕ) (t : SocketType) → R (put ts i (t ∷ [])) → Ends (set_socket_type i t)
  unfolding set_socket_type
  Ends-set_socket_type i t h = record { ends = λ s e. rw e h }

  pub Ends-if :
      {A : Type 0} (b : Bool) (m k : M W A)
      → (b ≡ true → Ends m)
      → (b ≡ false → Ends k)
      → Ends (if b then m else k)
  Ends-if true m k h hk = h refl
  Ends-if false m k h hk = hk refl

  -- a value that was fetched is known
  pub Ends-fetch :
      {A B : Type 0} (o : Option A) (k : A → M W B)
      → ((a : A) → o ≡ some a → Ends (k a))
      → Ends (fetch o >>= k)
  unfolding fetch ◌>>=◌
  Ends-fetch none k h = record { ends = λ s e. tt }
  Ends-fetch (some a) k h = record { ends = λ s e. (h a refl).ends s e }

  pub Ends-socket_type :
      {B : Type 0} (i : ℕ) (k : SocketType → M W B)
      → ((t : SocketType) → get_elem? ts i ≡ some t → Ends (k t))
      → Ends (socket_type i >>= k)
  unfolding socket_type ◌>>=◌
  Ends-socket_type i k h = record {
    ends = λ s e.
        subst (λ o. Leaves ((fetch o >>= k) s) (λ _ us. R us)) (sym (ap (λ us. get_elem? us i) e))
          ((Ends-fetch (get_elem? ts i) k h).ends s e);
  }

module _ {W : Type 0} (R Q : List SocketType → Type 0) {A B : Type 0} where
  Leaves-then :
      (r : Option (A × Server W)) (k : A → M W B)
      → Leaves r (λ _ us. R us)
      → ((a : A) (us : List SocketType) → R us → Ends us Q (k a))
      → Leaves (elim r [ none ↦ none | some (a, s) ↦ k a s ]) (λ _ us. Q us)
  Leaves-then none k h hk = tt
  Leaves-then (some (a, s)) k h hk = (hk a s.socket_types h).ends s refl

  pub Ends-then :
      (ts : List SocketType) (m : M W A) (k : A → M W B)
      → Ends ts R m
      → ((a : A) (us : List SocketType) → R us → Ends us Q (k a))
      → Ends ts Q (m >>= k)
  unfolding ◌>>=◌
  Ends-then ts m k h hk = record { ends = λ s e. Leaves-then (m s) k (h.ends s e) hk }

module _ {W : Type 0} (R Q : List SocketType → Type 0) {A : Type 0} where
  pub Ends-mono :
      (ts : List SocketType) (m : M W A)
      → ((us : List SocketType) → R us → Q us)
      → Ends ts R m
      → Ends ts Q m
  Ends-mono ts m h e = record { ends = λ s p. Leaves-mono (m s) (λ _ us r. h us r) (e.ends s p) }

pub ruleset ends_rules = (
  quiet, Ends-first, Ends-last, Ends-Quiet, Ends-free_socket, Ends-set_socket_type, Ends-if,
  Ends-fetch, Ends-socket_type,
)
