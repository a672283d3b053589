-- ===== src/Boot/V2/Chunk/Input.antt =====
-- What the inflater of `V2::recv_chunk` in device/okboot/src/protocol/v2.rs has taken of the chunks.
use okeanos.Prelude.{
  ℕ, true, List, ◌++◌, ◌==◌, take, drop, ◌≡◌, ◌⊎◌, inl, inr, sym, ap, subst, ◌∙◌, append-nil,
  append_assoc, take-append-drop, eq_of_test,
}
use okeanos.Boot.V2.{Inflate}

-- The states that calls of the inflater lead to, from the first one on.
pub data Reached (z : Inflate) : z.I → Type 0 where
  begins : Reached z z.new
  feeds : {i : z.I} (p : List ℕ) (room : ℕ) → Reached z i → Reached z (z.inflate i p room).state

-- By its documentation, miniz_oxide takes no more input once the stream has ended.
abbrev pub StopsAtEnd : Inflate → Type 0
StopsAtEnd z =
    (i : z.I) (p : List ℕ) (room : ℕ) → z.HasEnded i → (z.inflate i p room).bytes_consumed ≡ 0

-- The first of the two lists begins the second.
pub record Begins (xs ys : List ℕ) : Type 0 where
  pub rest : List ℕ
  pub all : xs ++ rest ≡ ys

module _ (z : Inflate) where
  -- The inflater has taken a beginning of the compressed bytes `xs`, each once and in order: `pending`
  -- is the rest, unless the compressed stream has ended before it.
  abbrev pub TakenInput : z.I → List ℕ → List ℕ → Type 0
  TakenInput i pending xs = (z.HasEnded i × Begins (z.input i) xs) ⊎ (z.input i ++ pending ≡ xs)

  pub record Taken (i : z.I) (pending xs : List ℕ) : Type 0 where
    pub reached : Reached z i
    pub input : TakenInput i pending xs

  pub more-Taken :
      (i : z.I) (p xs bytes : List ℕ) → Taken i p xs → Taken i (p ++ bytes) (xs ++ bytes)
  more-Taken i p xs bytes h = record {
    reached = h.reached;
    input = elim h.input [
      | inl (e, b) ↦ inl (
        e,
        record {
          rest = b.rest ++ bytes;
          all = sym (append_assoc (z.input i) b.rest bytes) ∙ ap (λ ys. ys ++ bytes) b.all;
        },
      )
      | inr e ↦ inr (sym (append_assoc (z.input i) p bytes) ∙ ap (λ ys. ys ++ bytes) e)
    ];
  }

module _ (z : Inflate) (stops : StopsAtEnd z) where
  split_input :
      (i : z.I) (p : List ℕ) (room : ℕ)
      → let r = z.inflate i p room in z.input r.state ++ drop r.bytes_consumed p ≡ z.input i ++ p
  split_input i p room =
      let r = z.inflate i p room in
      ap (λ ys. ys ++ drop r.bytes_consumed p) (z.input-inflate i p room)
      ∙ append_assoc (z.input i) (take r.bytes_consumed p) (drop r.bytes_consumed p)
      ∙ ap (λ ys. z.input i ++ ys) (take-append-drop r.bytes_consumed p)

  ended-Begins :
      (i : z.I) (p : List ℕ) (room : ℕ) (xs : List ℕ)
      → z.HasEnded i
      → Begins (z.input i) xs
      → Begins (z.input (z.inflate i p room).state) xs
  ended-Begins i p room xs h b = record {
    rest = b.rest;
    all =
        ap (λ ys. ys ++ b.rest)
          (z.input-inflate i p room
            ∙ ap (λ n. z.input i ++ take n p) (stops i p room h)
            ∙ append-nil (z.input i))
        ∙ b.all;
  }

  pub inflate-Taken :
      (i : z.I) (p : List ℕ) (room : ℕ) (xs : List ℕ)
      → Taken z i p xs
      → let r = z.inflate i p room in Taken z r.state (drop r.bytes_consumed p) xs
  inflate-Taken i p room xs h = record {
    reached = feeds p room h.reached;
    input = elim h.input [
      | inl (e, b) ↦ inl (z.stays_ended i p room e, ended-Begins i p room xs e b)
      | inr e ↦ inr (split_input i p room ∙ e)
    ];
  }

  -- At the end of the stream, whatever is kept for the next call.
  pub end-Taken :
      (i : z.I) (p : List ℕ) (room : ℕ) (xs kept : List ℕ)
      → Taken z i p xs
      → z.HasEnded (z.inflate i p room).state
      → Taken z (z.inflate i p room).state kept xs
  end-Taken i p room xs kept h e = record {
    reached = feeds p room h.reached;
    input = elim h.input [
      | inl (e', b) ↦ inl (e, ended-Begins i p room xs e' b)
      | inr all ↦ inl (
        e,
        record {
          rest = drop (z.inflate i p room).bytes_consumed p;
          all = split_input i p room ∙ all;
        },
      )
    ];
  }

  pub buf_error-Taken :
      (i : z.I) (p : List ℕ) (room : ℕ) (xs : List ℕ)
      → let r = z.inflate i p room in
        (r.bytes_consumed == 0) ≡ true → Taken z i p xs → Taken z r.state p xs
  buf_error-Taken i p room xs e h =
      let r = z.inflate i p room in
      subst (λ n. Taken z r.state (drop n p) xs) (eq_of_test r.bytes_consumed 0 e)
        (inflate-Taken i p room xs h)
