-- ===== src/Receiver/Queue.antt =====
-- The contents of the receiver's queue between two steps (src/receiver.cpp).
use single_exchange_triangul.Common.{
  ℕ, zero, suc, ◌+◌, ◌%◌, ◌^◌, ◌≤◌, ◌<◌, ◌≡◌, refl, sym, ap, ◌∙◌, ◌≢◌, inl, inr, some, List, [],
  ◌∷◌, ◌++◌, arith, get_elem?, set, length, length-append, length-set, length-replicate,
  get_elem?-set_self, get_elem?-set_ne, get_elem?-last, Bool-cases, ◌==◌,
}
use single_exchange_triangul.Receiver.{RawMessage, Channel, blank_message, new_channel}

module _ {A : Type 0} where
  get_elem?-append_left :
      (xs ys : List A) (k : ℕ) → k < length xs → get_elem? (xs ++ ys) k ≡ get_elem? xs k
  get_elem?-append_left [] ys k h = elim h [ ]
  get_elem?-append_left (x ∷ xs) ys zero h = refl
  get_elem?-append_left (x ∷ xs) ys (suc k) h = get_elem?-append_left xs ys k (omega arith)

-- The messages `q` are in the queue, the oldest one first.
pub record Holds (c : Channel) (q : List RawMessage) : Type 0 where
  pub size : length c.queue ≡ 1024
  pub read_word : c.read_index < 2 ^ 64
  pub bounded : length q ≤ 1024
  pub written : c.write_index ≡ (c.read_index + length q) % 2 ^ 64
  pub content :
      (k : ℕ) → k < length q → get_elem? c.queue ((c.read_index + k) % 1024) ≡ get_elem? q k

-- The index that the read handler has loaded may lag `lag` messages behind.
abbrev pub Lags : Channel → List RawMessage → Type 0
Lags c q =
    (m : RawMessage) (read : ℕ)
    → c.arrived ≡ some (m, read)
    → (lag : ℕ) × (read < 2 ^ 64) × (c.read_index ≡ (read + lag) % 2 ^ 64) × (length q + lag ≤ 1024)

-- A round that has begun has the oldest message.
abbrev pub Takes : Channel → List RawMessage → Type 0
Takes c q = (m : RawMessage) → c.taken ≡ some m → (rest : List RawMessage) × (q ≡ m ∷ rest)

pub record Good (c : Channel) (q : List RawMessage) : Type 0 where
  pub holds : Holds c q
  pub lags : Lags c q
  pub takes : Takes c q

pub new_channel-Good : Good new_channel []
new_channel-Good = record {
  holds = record {
    size = length-replicate 1024 blank_message;
    read_word = omega arith;
    bounded = omega arith;
    written = omega arith;
    content = λ k h. elim h [ ];
  };
  lags = λ m read e. ground arith;
  takes = λ m e. ground arith;
}

pub Holds-push :
    (c : Channel) (q : List RawMessage) (m : RawMessage)
    → Holds c q
    → length q < 1024
    → Holds
        (record c {
          queue = set c.queue (c.write_index % 1024) m;
          write_index = (c.write_index + 1) % 2 ^ 64;
        })
        (q ++ (m ∷ []))
Holds-push c q m h room = record {
  size = length-set c.queue _ m ∙ h.size;
  read_word = h.read_word;
  bounded = omega (arith, length-append q (m ∷ []), room);
  written = omega (arith, length-append q (m ∷ []), h.written);
  content = λ k under. elim (Bool-cases (k == length q)) [
    | inl last ↦
        let here : k ≡ length q = ground arith in
        let place : (c.read_index + k) % 1024 ≡ c.write_index % 1024 =
          omega (arith, h.written, here) in
        ap (get_elem? (set c.queue (c.write_index % 1024) m)) place
        ∙ get_elem?-set_self c.queue (c.write_index % 1024) m (omega (arith, h.size))
        ∙ sym (ap (get_elem? (q ++ (m ∷ []))) here ∙ get_elem?-last q m)
    | inr before ↦
        let other : k ≢ length q = ground arith in
        let inside : k < length q = omega (arith, length-append q (m ∷ []), other, under) in
        let apart : c.write_index % 1024 ≢ (c.read_index + k) % 1024 =
          λ e. omega (arith, h.written, h.bounded, room, inside, e) in
        get_elem?-set_ne c.queue {i = c.write_index % 1024} {j = (c.read_index + k) % 1024} m apart
        ∙ h.content k inside
        ∙ sym (get_elem?-append_left q (m ∷ []) k inside)
  ];
}

pub Holds-pop :
    (c : Channel) (m : RawMessage) (q : List RawMessage)
    → Holds c (m ∷ q)
    → Holds (record c { read_index = (c.read_index + 1) % 2 ^ 64 }) q
Holds-pop c m q h = record {
  size = h.size;
  read_word = omega arith;
  bounded = omega (arith, h.bounded);
  written = omega (arith, h.written);
  content = λ k under.
      let place : ((c.read_index + 1) % 2 ^ 64 + k) % 1024 ≡ (c.read_index + suc k) % 1024 =
        omega arith in
      ap (get_elem? c.queue) place ∙ h.content (suc k) (omega (arith, under));
}

-- The members that `Holds` reads are as before.
pub Holds-same :
    {c : Channel} (d : Channel) {q : List RawMessage}
    → d.queue ≡ c.queue
    → d.read_index ≡ c.read_index
    → d.write_index ≡ c.write_index
    → Holds c q
    → Holds d q
Holds-same {c} d {q} same_queue same_read same_write h = record {
  size = ap length same_queue ∙ h.size;
  read_word = omega (arith, same_read, h.read_word);
  bounded = h.bounded;
  written = omega (arith, same_read, same_write, h.written);
  content = λ k under.
      let place : (d.read_index + k) % 1024 ≡ (c.read_index + k) % 1024 =
        omega (arith, same_read) in
      ap (get_elem? d.queue) place
      ∙ ap (λ xs. get_elem? xs ((c.read_index + k) % 1024)) same_queue
      ∙ h.content k under;
}
