-- ===== src/Prepared/Made.antt =====
-- The steps that change a statement: `New` sets one, its preparation fails, its channel is closed.
use pewter_rinse_moor.Prelude.{
  ℕ, ◌≡◌, refl, inl, inr, Bool, Option, none, some, Bytes, arith, equal_bytes, equal_numbers, ◌==◌,
  Bool-cases, bytes_beq_iff,
}
use pewter_rinse_moor.Prepared.{
  idle, creating, preparing, failing, closing, returned, State, put, unlock, set_new, set_err,
  close,
}
use pewter_rinse_moor.Prepared.Steps.{IsOwn, Inv, Change-Inv}
use pewter_rinse_moor.Prepared.Changes.{points_self, points_other, not_writer, not_reader}

module _ (s : State) (t : ℕ) (inv : Inv s) (query : Bytes) (tx : Bool) where
  pub set_new-Inv :
      s.pc t ≡ creating query tx
      → Inv (put (unlock (set_new query tx t s)) t (preparing query tx s.next))
  set_new-Inv here =
      let mine : s.writer ≡ some t = rw here at (inv.good t) in
      Change-Inv
        (record {
          pc_self = points_self s t idle (preparing query tx s.next);
          pc_other = points_other s t idle (preparing query tx s.next);
          grows = omega arith;
          stmts = λ i lt. inl (ground arith);
          names = λ i lt. (ground arith, ground arith);
          opened = λ i lt h. (ground arith, λ f. absurd f);
          fresh = λ i above lt. (ground arith, omega arith);
          cached = λ k id e. elim (Bool-cases (k == query)) [
            | inl same ↦ inr (ground arith, ground arith, ground (arith, bytes_beq_iff k query))
            | inr other ↦ inl (ground arith)
          ];
          writer_kept = λ v ne e. absurd (ne (ground arith));
          writer_from = λ v e. absurd (ground arith);
          readers_from = λ v e. inl (e, not_reader s t inv (creating query tx) here (λ x. x) v e);
          good = record {
            made = omega arith;
            same_query = ground arith;
            same_tx = ground arith;
            unprepared = ground arith;
            same_err = ground arith;
            owned = ground arith;
          };
        })
        inv here

  module _ (id : ℕ) where
    pub set_err-Inv :
        (e : ℕ)
        → s.pc t ≡ preparing query tx id
        → Inv (put (set_err id e s) t (failing query tx id e))
    set_err-Inv e here =
        let own : IsOwn s t query tx id none = rw here at (inv.good t) in
        Change-Inv
          (record {
            pc_self = points_self s t idle (failing query tx id e);
            pc_other = points_other s t idle (failing query tx id e);
            grows = omega arith;
            stmts = λ i lt. elim (Bool-cases (i == id)) [
              | inl same ↦
                  let i_id : i ≡ id = ground arith in
                  inr (rw i_id own.owned, rw i_id own.unprepared)
              | inr other ↦ inl (rw other refl)
            ];
            names = λ i lt. (ground arith, ground arith);
            opened = λ i lt h. (ground arith, λ f. f);
            fresh = λ i above lt. absurd (omega arith);
            cached = λ k i e. inl e;
            writer_kept = λ v ne e. e;
            writer_from =
                λ v e. inl (e, not_writer s t inv (preparing query tx id) here (λ x. x) v e);
            readers_from =
                λ v e. inl (e, not_reader s t inv (preparing query tx id) here (λ x. x) v e);
            good = record {
              made = own.made;
              same_query = ground (arith, own.same_query);
              same_tx = ground (arith, own.same_tx);
              unprepared = ground (arith, own.unprepared);
              same_err = ground arith;
              owned = ground (arith, own.owned);
            };
          })
          inv here

    pub close-Inv :
        (e : Option ℕ)
        → s.pc t ≡ closing query tx id e
        → Inv (put (close id s) t (returned query tx id e))
    close-Inv e here =
        let own : IsOwn s t query tx id e = rw here at (inv.good t) in
        Change-Inv
          (record {
            pc_self = points_self s t idle (returned query tx id e);
            pc_other = points_other s t idle (returned query tx id e);
            grows = omega arith;
            stmts = λ i lt. elim (Bool-cases (i == id)) [
              | inl same ↦
                  let i_id : i ≡ id = ground arith in
                  inr (rw i_id own.owned, rw i_id own.unprepared)
              | inr other ↦ inl (rw other refl)
            ];
            names = λ i lt. (ground arith, ground arith);
            opened = λ i lt h. (ground arith, λ f. ground arith);
            fresh = λ i above lt. absurd (omega arith);
            cached = λ k i e. inl e;
            writer_kept = λ v ne e. e;
            writer_from =
                λ v w. inl (w, not_writer s t inv (closing query tx id e) here (λ x. x) v w);
            readers_from =
                λ v r. inl (r, not_reader s t inv (closing query tx id e) here (λ x. x) v r);
            good = record {
              made = own.made;
              same_query = ground (arith, own.same_query);
              prepared = ground arith;
              same_err = ground (arith, own.same_err);
              usable = ground (arith, own.same_tx);
            };
          })
          inv here
