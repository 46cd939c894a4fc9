-- ===== src/Server/Order.antt =====
-- An unordered map has no order of its own: the endpoints of `Server` can be walked in any.
use mathlib.Core.List.{
  Perm, Permᴰ, Mem, Pairwise, mem-cons_self, eq-or-mem_of_mem-cons, not-mem-nil,
}
use mathlib.Core.List.Permᴰ
use mathlib.Core.Logic.{∥∥₁_map, ∥∥₁_elim}
use mathlib.Core.Logic.Or
use nsvr.Prelude.{
  ◌≡◌, refl, sym, subst, ◌∙◌, true, false, Option-cases, inl, inr, Option, none, some, List, [],
  ◌∷◌, Bytes, arith,
}
use nsvr.Env.{Env, Handle}
use nsvr.Env.Monad.{Sys}
use nsvr.Env.Count.{push_some}
use nsvr.Server.Endpoint.{UdpEndpoint, Endpoints, bytes_eq, find}
use nsvr.Server.{Server, broadcast_to_clients, remember}
use nsvr.Server.Delivery.{
  ends, ready_then, sends_of, broadcast_reaches, bytes_eq_sound, bytes_eq_refl, self-setup,
}

abbrev Entry : Type 0
Entry = Bytes × UdpEndpoint

abbrev Destinations : Type 0
Destinations = List (Handle × Handle)

push_some-Perm :
    (o : Option (Handle × Handle)) {l m : Destinations}
    → Permᴰ l m
    → Permᴰ (push_some o l) (push_some o m)
push_some-Perm none p = p
push_some-Perm (some a) p = Permᴰ.cons refl p

push_both-Perm :
    (o u : Option (Handle × Handle)) {l m : Destinations}
    → Permᴰ l m
    → Permᴰ (push_some o (push_some u l)) (push_some u (push_some o m))
push_both-Perm none u p = push_some-Perm u p
push_both-Perm (some a) none p = Permᴰ.cons refl p
push_both-Perm (some a) (some b) p =
    Permᴰ.trans (Permᴰ.swap refl refl) (Permᴰ.cons refl (Permᴰ.cons refl p))

ready_then_more :
    (es : Endpoints) {l m : Destinations} → Permᴰ l m → Permᴰ (ready_then es l) (ready_then es m)
ready_then_more [] p = p
ready_then_more ((_, e) ∷ es) p = ready_then_more es (push_some-Perm (ends e) p)

ready_then-Perm :
    {es fs : Endpoints} {l m : Destinations}
    → Permᴰ es fs
    → Permᴰ l m
    → Permᴰ (ready_then es l) (ready_then fs m)
ready_then-Perm Permᴰ.nil p = p
ready_then-Perm {l} {m} (Permᴰ.cons {a = a} {l₁ = es} {l₂ = fs} e d) p =
    subst (λ (x : Entry). Permᴰ (ready_then (a ∷ es) l) (ready_then (x ∷ fs) m)) e
      (ready_then-Perm d (push_some-Perm (ends a.1) p))
ready_then-Perm {l} {m} (Permᴰ.swap {a = a} {b = b} {a' = c} {l = rest} e f) p =
    subst (λ (x : Entry). Permᴰ (ready_then (a ∷ b ∷ rest) l) (ready_then (c ∷ x ∷ rest) m)) e
      (subst (λ (x : Entry). Permᴰ (ready_then (a ∷ b ∷ rest) l) (ready_then (x ∷ a ∷ rest) m)) f
        (ready_then_more rest (push_both-Perm (ends b.1) (ends a.1) p)))
ready_then-Perm (Permᴰ.trans d e) p =
    Permᴰ.trans (ready_then-Perm d p) (ready_then-Perm e (Permᴰ.refl _))

-- No two endpoints are of the same address.
abbrev pub IsDistinct : Endpoints → Type 0
IsDistinct = Pairwise (λ a b. bytes_eq a.0 b.0 ≡ false)

same_key : (a b ip : Bytes) → bytes_eq a ip ≡ true → bytes_eq b ip ≡ true → bytes_eq a b ≡ true
same_key a b ip e f = subst (λ (x : Bytes). bytes_eq a x ≡ true) (sym (bytes_eq_sound b ip f)) e

different_sym : (a b : Entry) → bytes_eq a.0 b.0 ≡ false → bytes_eq b.0 a.0 ≡ false
different_sym a b h = ground (arith, same_key a.0 b.0 a.0 (bytes_eq_refl a.0))

find-swap :
    (ip : Bytes) (a b : Entry) (rest : Endpoints)
    → bytes_eq a.0 b.0 ≡ false
    → find ip (a ∷ b ∷ rest) ≡ find ip (b ∷ a ∷ rest)
unfolding find
find-swap ip a b rest other = ground (arith, same_key a.0 b.0 ip)

find-Perm : (ip : Bytes) {es fs : Endpoints} → Permᴰ es fs → IsDistinct es → find ip es ≡ find ip fs
unfolding find
find-Perm ip Permᴰ.nil distinct = refl
find-Perm ip (Permᴰ.cons {a = a} {l₁ = es} {l₂ = fs} e d) (Pairwise.cons h t) =
    subst (λ (x : Entry). find ip (a ∷ es) ≡ find ip (x ∷ fs)) e (rw (find-Perm ip d t) refl)
find-Perm ip (Permᴰ.swap {a = a} {b = b} {a' = c} {l = rest} e f) (Pairwise.cons h t) =
    subst (λ (x : Entry). find ip (a ∷ b ∷ rest) ≡ find ip (c ∷ x ∷ rest)) e
      (subst (λ (x : Entry). find ip (a ∷ b ∷ rest) ≡ find ip (x ∷ a ∷ rest)) f
        (find-swap ip a b rest (h b mem-cons_self)))
find-Perm ip (Permᴰ.trans d e) distinct =
    find-Perm ip d distinct
    ∙ find-Perm ip e (Permᴰ.pairwise (λ a b. hlevel) different_sym d distinct)

absent :
    (ip : Bytes) (es : Endpoints)
    → find ip es ≡ none
    → (x : Entry) → Mem x es
    → bytes_eq ip x.0 ≡ false
unfolding find
absent ip [] e x m = absurd (not-mem-nil m)
absent ip (a ∷ es) e x m =
    Or.elim (hlevel) (eq-or-mem_of_mem-cons m)
      (λ same. rw same (ground (arith, different_sym a (ip, a.1))))
      (λ later. absent ip es (ground arith) x later)

module _ (env : Env) where
  -- After a message from any address still no address has two endpoints, if none had before.
  pub remember-IsDistinct :
      (ip : Bytes) (s : Sys Server)
      → IsDistinct s.self.endpoints
      → IsDistinct (remember env ip s).1.self.endpoints
  unfolding remember
  remember-IsDistinct ip s distinct = elim (Option-cases (find ip s.self.endpoints)) [
    | inr (e, known) ↦ rw known distinct
    | inl new ↦
        rw (new, self-setup env ip s.self.listen_port s)
          (Pairwise.cons (absent ip s.self.endpoints new) distinct)
  ]

  -- The order in which the map of endpoints is walked makes no difference: if no address has two
  -- endpoints, then for any permutation of them a broadcast sends the message to the same sockets
  -- and addresses, up to order, and every address has the same endpoint.
  pub order_irrelevant :
      (message : Bytes) (s : Sys Server) (fs : Endpoints)
      → IsDistinct s.self.endpoints
      → Perm s.self.endpoints fs
      → let t = record s { self = record s.self { endpoints = fs } } in
        Perm
          (sends_of message (broadcast_to_clients env message s).1.trace)
          (sends_of message (broadcast_to_clients env message t).1.trace)
        × ((ip : Bytes) → find ip s.self.endpoints ≡ find ip fs)
  order_irrelevant message s fs distinct p =
      let t : Sys Server = record s { self = record s.self { endpoints = fs } } in
      (
        rw (broadcast_reaches env message s, broadcast_reaches env message t)
            (∥∥₁_map p (λ d. ready_then-Perm d (Permᴰ.refl (sends_of message s.trace)))),
        λ ip. ∥∥₁_elim p (hlevel) (λ d. find-Perm ip d distinct),
      )
