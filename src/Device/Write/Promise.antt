-- ===== src/Device/Write/Promise.antt =====
-- What a call of `async_write` has done to the module's registers, however it ends.
use ha_wago.Base.{ℕ, ◌-◌, ◌≡◌, ◌⊎◌, inl, inr, refl, ap, ◌∙◌, List, arith, Option-cases}
use mathlib.Core.Path.{fun_ext}
use ha_wago.Base.Lists.{length}
use ha_wago.Base.Outcome.{Outcome, ok, raise}
use ha_wago.Modbus.{ModbusError, ModbusUnit, IsRegisters, Outside, overlay}
use ha_wago.Device.Write.{
  Change, StringEncoder, WriteError, modbus_error, module_not_applied, value_error, Io, send,
  fitting, ◌>>=◌, ◌>>◌, not_applied, Blocks, change_blocks, write_blocks, async_write,
}
use ha_wago.Device.Write.Effect.{after_changes, IsFilling, two, over, Changed}
use ha_wago.Device.Write.Changes.{change_blocks-Changed}

-- To show `Q` of a run, show it of the rest after a value and of a raise.
bind_rule :
    {S A B : Type 0} (Q : Outcome WriteError B → S → Type 0) (m : Io S A) (f : A → Io S B) (s : S)
    → ((a : A) → (m s).0 ≡ ok a → Q (f a (m s).1).0 (f a (m s).1).1)
    → ((e : WriteError) → (m s).0 ≡ raise e → Q (raise e) (m s).1)
    → Q ((m >>= f) s).0 ((m >>= f) s).1
unfolding ◌>>=◌
bind_rule {S} {A} {B} Q m f s returns raises = go (m s).0 refl
  where
    go : (r : Outcome WriteError A) → (m s).0 ≡ r → Q ((m >>= f) s).0 ((m >>= f) s).1
    go (ok a) e = rw e (returns a e)
    go (raise x) e = rw e (raises x e)

module _ {S A : Type 0} (call : S → Outcome ModbusError A × S) (s : S) where
  send_state : (send call s).1 ≡ (call s).1
  unfolding send
  send_state = ground arith

  send-eq-ok : (a : A) → (send call s).0 ≡ ok a → (call s).0 ≡ ok a
  unfolding send
  send-eq-ok a h = ground arith

  send-eq-raise :
      (e : WriteError) → (send call s).0 ≡ raise e → (x : ModbusError) × (e ≡ modbus_error x)
  unfolding send
  send-eq-raise e h = ground arith

abbrev IsCommand : ℕ → Type 0
IsCommand a = (a ≡ 0x03F1) ⊎ (a ≡ 0x03F2)

module _ {S : Type 0} (unit : ModbusUnit S) (word : S → ℕ → ℕ)
    (registers : IsRegisters unit word) where
  open registers use {
    read_keeps, read_length, read_words, write_frame, write_words, write_one_frame,
  }

  -- Two blocks were written to `t`, or the link failed on the way.
  record Wrote (settings network : List ℕ) (t : S) (r : Outcome WriteError (Unit {0})) (after : S)
      : Type 0 where
    returned : r ≡ ok tt → (a : ℕ) → word after a ≡ over settings network (word t) a
    failed : (e : WriteError) → r ≡ raise e → (x : ModbusError) × (e ≡ modbus_error x)
    outside : (a : ℕ) → Outside 0 5 a → Outside 100 32 a → word after a ≡ word t a

  module _ (settings network : List ℕ) (ls : length settings ≡ 5) (ln : length network ≡ 32) where
    failed_Wrote :
        (t t' : S) (e : WriteError) (x : ModbusError)
        → e ≡ modbus_error x
        → ((a : ℕ) → Outside 0 5 a → Outside 100 32 a → word t' a ≡ word t a)
        → Wrote settings network t (raise e) t'
    failed_Wrote t t' e x p h = record {
      returned = λ q. cc;
      failed = λ e' q. (x, ground arith);
      outside = h;
    }

    write_blocks-Wrote :
        (t : S)
        → Wrote settings network t
            (write_blocks unit (two settings network) t).0
            (write_blocks unit (two settings network) t).1
    unfolding write_blocks
    write_blocks-Wrote t =
        let call1 = unit.write_registers 0 settings in
        let call2 = unit.write_registers 100 network in
        let t1 : S = (send call1 t).1 in
        let t2 : S = (send call2 t1).1 in
        let frame1 : (a : ℕ) → Outside 0 5 a → word t1 a ≡ word t a =
          λ a o. rw (send_state call1 t) (write_frame 0 a settings t (omega arith)) in
        let frame2 : (a : ℕ) → Outside 100 32 a → word t2 a ≡ word t1 a =
          λ a o. rw (send_state call2 t1) (write_frame 100 a network t1 (omega arith)) in
        bind_rule (Wrote settings network t) (send call1) _ t
          (λ u e1.
            bind_rule (Wrote settings network t) (send call2) _ t1
              (λ v e2. record {
                returned = λ _ a.
                    let k1 : word t1 a ≡ overlay 0 settings (word t) a =
                      rw (send_state call1 t)
                        (write_words 0 a settings t (send-eq-ok call1 t tt e1)) in
                    let k2 : word t2 a ≡ overlay 100 network (word t1) a =
                      rw (send_state call2 t1)
                        (write_words 100 a network t1 (send-eq-ok call2 t1 tt e2)) in
                    ground arith;
                failed = λ e q. cc;
                outside = λ a o1 o2. frame2 a o2 ∙ frame1 a o1;
              })
              (λ e r.
                let (x, p) = send-eq-raise call2 t1 e r in
                failed_Wrote t t2 e x p (λ a o1 o2. frame2 a o2 ∙ frame1 a o1)))
          (λ e r.
            let (x, p) = send-eq-raise call1 t e r in
            failed_Wrote t t1 e x p (λ a o1 o2. frame1 a o1))

module _ {S : Type 0} (unit : ModbusUnit S) (word : S → ℕ → ℕ) (registers : IsRegisters unit word)
    (enc : StringEncoder) (filling : IsFilling enc) (changes : List Change) (s : S) where
  -- In a call that returns, or that only lacks the module's confirmation, every register but the
  -- two command registers holds what the changes make of it. A value that does not fit its field
  -- leaves every register alone. No call touches a register outside the blocks and the commands.
  pub record IsPromised (r : Outcome WriteError (Unit {0})) (after : S) : Type 0 where
    pub stored :
        (r ≡ ok tt) ⊎ (r ≡ raise module_not_applied)
        → (a : ℕ) → ¬ (IsCommand a)
        → word after a ≡ after_changes enc changes (word s) a
    pub untouched : r ≡ raise value_error → (a : ℕ) → word after a ≡ word s a
    pub frame :
        (a : ℕ) → Outside 0 5 a → Outside 100 32 a → ¬ (IsCommand a) → word after a ≡ word s a

  open registers use {read_keeps, read_length, read_words, write_one_frame}

  abbrev Promised : Outcome WriteError (Unit {0}) → S → Type 0
  Promised r after = IsPromised r after

  abbrev Frame : S → Type 0
  Frame t = (a : ℕ) → Outside 0 5 a → Outside 100 32 a → ¬ (IsCommand a) → word t a ≡ word s a

  abbrev Done : S → Type 0
  Done t = (a : ℕ) → ¬ (IsCommand a) → word t a ≡ after_changes enc changes (word s) a

  link_failed :
      (t : S) (e : WriteError) (x : ModbusError)
      → e ≡ modbus_error x
      → Frame t
      → Promised (raise e) t
  link_failed t e x p frame = record {
    stored = λ q a c. ground arith;
    untouched = λ q a. cc;
    frame = frame;
  }

  abbrev apply_step : Io S Unit
  apply_step = not_applied (send (unit.write_register 0x03F1 1))

  apply_Promised : (t : S) → Done t → Frame t → Promised (apply_step t).0 (apply_step t).1
  unfolding not_applied send
  apply_Promised t done frame =
      let same : (a : ℕ) → ¬ (IsCommand a) → word (apply_step t).1 a ≡ word t a =
        λ a c. ground (arith, write_one_frame 0x03F1 a 1 t (λ q. c (inl q))) in
      record {
        stored = λ _ a c. same a c ∙ done a c;
        untouched = λ q. absurd (ground arith);
        frame = λ a o1 o2 c. same a c ∙ frame a o1 o2 c;
      }

  abbrev store_step : Io S Unit
  store_step = send (unit.write_register 0x03F2 1) >> apply_step

  store_Promised : (t : S) → Done t → Frame t → Promised (store_step t).0 (store_step t).1
  store_Promised t done frame =
      let call = unit.write_register 0x03F2 1 in
      let same : (a : ℕ) → ¬ (IsCommand a) → word (send call t).1 a ≡ word t a =
        λ a c. rw (send_state call t) (write_one_frame 0x03F2 a 1 t (λ q. c (inr q))) in
      bind_rule Promised (send call) _ t
        (λ _ _.
          apply_Promised (send call t).1 (λ a c. same a c ∙ done a c)
            (λ a o1 o2 c. same a c ∙ frame a o1 o2 c))
        (λ e r.
          let (x, p) = send-eq-raise call t e r in
          link_failed (send call t).1 e x p (λ a o1 o2 c. same a c ∙ frame a o1 o2 c))

  commit_Promised :
      (blocks : Blocks) (settings network : List ℕ) (t : S)
      → ((a : ℕ) → word t a ≡ word s a)
      → ((a : ℕ) → over settings network (word t) a ≡ word s a)
      → Changed settings network (after_changes enc changes) blocks
      → Promised
          ((write_blocks unit blocks >> store_step) t).0
          ((write_blocks unit blocks >> store_step) t).1
  commit_Promised blocks settings network t kept read changed =
      let new_settings = changed.new_settings in
      let new_network = changed.new_network in
      let wrote =
        write_blocks-Wrote unit word registers new_settings new_network changed.settings_words
          changed.network_words t in
      let m = write_blocks unit (two new_settings new_network) in
      rw changed.shape (
        bind_rule Promised m _ t
          (λ _ e.
            store_Promised (m t).1
              (λ a c.
                wrote.returned e a
                ∙ changed.same_effect (word t) a
                ∙ ap (λ k. after_changes enc changes k a) (fun_ext read))
              (λ a o1 o2 c. wrote.outside a o1 o2 ∙ kept a))
          (λ e r.
            let (x, p) = wrote.failed e r in
            link_failed (m t).1 e x p (λ a o1 o2 c. wrote.outside a o1 o2 ∙ kept a)))

  fit_Promised :
      (settings network : List ℕ) (t : S)
      → ((a : ℕ) → word t a ≡ word s a)
      → ((a : ℕ) → over settings network (word t) a ≡ word s a)
      → length settings ≡ 5
      → length network ≡ 32
      → let m : Io S Unit =
          (fitting (change_blocks enc changes (two settings network)) >>= λ blocks.
          write_blocks unit blocks >> store_step) in
        Promised (m t).0 (m t).1
  fit_Promised settings network t kept read ls ln =
      let fit : Io S Blocks = fitting (change_blocks enc changes (two settings network)) in
      elim (Option-cases (change_blocks enc changes (two settings network))) [
        | inl e ↦
            unfold fitting ◌>>=◌ in
            rw e (record {
              stored = λ q a c. ground arith;
              untouched = λ q a. kept a;
              frame = λ a o1 o2 c. kept a;
            })
        | inr (blocks, e) ↦
            unfold fitting ◌>>=◌ in
            rw e (
              commit_Promised blocks settings network t kept read
                (change_blocks-Changed enc filling changes settings network blocks ls ln e))
      ]

  -- `async_write` does what it promises, whichever calls the link answers: when it returns, and
  -- also when only the command "apply" is not confirmed, every register but the two command
  -- registers holds what the changes make of what it held; when a value does not fit its field no
  -- register has changed; and however it ends, no register outside the two blocks and the two
  -- commands has changed. The unit is one of `IsRegisters`, and an encoded text fills its field.
  pub async_write_promise :
      IsPromised (async_write unit enc changes s).0 (async_write unit enc changes s).1
  unfolding async_write
  async_write_promise =
      let call1 = unit.read_holding_registers 0 5 in
      let call2 = unit.read_holding_registers 100 32 in
      let t1 : S = (send call1 s).1 in
      let t2 : S = (send call2 t1).1 in
      let kept1 : (a : ℕ) → word t1 a ≡ word s a =
        λ a. rw (send_state call1 s) (read_keeps 0 5 a s) in
      let kept2 : (a : ℕ) → word t2 a ≡ word s a =
        λ a. rw (send_state call2 t1) (read_keeps 100 32 a t1 ∙ kept1 a) in
      bind_rule Promised (send call1) _ s
        (λ settings e1.
          let r1 = send-eq-ok call1 s settings e1 in
          bind_rule Promised (send call2) _ t1
            (λ network e2.
              let r2 = send-eq-ok call2 t1 network e2 in
              let ls = read_length 0 5 s settings r1 in
              let ln = read_length 100 32 t1 network r2 in
              fit_Promised settings network t2 kept2
                (λ a. ground (
                  arith,
                  kept2 a,
                  kept1 a,
                  read_words 0 5 a s settings r1,
                  read_words 100 32 (a - 100) t1 network r2,
                ))
                ls ln)
            (λ e r.
              let (x, p) = send-eq-raise call2 t1 e r in
              link_failed t2 e x p (λ a o1 o2 c. kept2 a)))
        (λ e r.
          let (x, p) = send-eq-raise call1 s e r in link_failed t1 e x p (λ a o1 o2 c. kept1 a))
