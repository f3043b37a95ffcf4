-- ===== src/Device/Write/Changes.antt =====
-- The whole loop over `changes`.
use ha_wago.Base.{ℕ, ◌-◌, ◌≡◌, inl, inr, refl, ap, ◌∙◌, some, List, [], ◌∷◌, arith, Option-cases}
use mathlib.Core.Path.{fun_ext}
use ha_wago.Base.Lists.{length}
use ha_wago.Modbus.{overlay}
use ha_wago.Device.Write.{
  Change, StringEncoder, field_of, encode, Blocks, block_start, update_block, change_block,
  change_blocks,
}
use ha_wago.Device.Write.Effect.{
  after_changes, IsFilling, length-encode, field_of-IsPlaced, two, block_start-two, Changed,
  update_settings, update_network,
}

module _ (enc : StringEncoder) (filling : IsFilling enc) where
  change_block-Changed :
      (c : Change) (words settings network : List ℕ) (blocks : Blocks)
      → encode enc c ≡ some words
      → length settings ≡ 5
      → length network ≡ 32
      → change_block enc c (two settings network) ≡ some blocks
      → Changed settings network (overlay (field_of c).address words) blocks
  unfolding change_block
  change_block-Changed c words settings network blocks e ls ln h =
      let count = length-encode enc filling c words e in
      let start = block_start-two (field_of c).address settings network in
      elim (field_of-IsPlaced c) [
        | inl low ↦
            let zero_start : block_start (field_of c).address (two settings network) ≡ 0 =
              ground arith in
            let same : update_block 0 ((field_of c).address - 0) (length words) words
                  (two settings network)
                ≡ blocks =
              ground arith in
            rw same at
              (update_settings settings network ls ln (field_of c).address words (omega arith))
        | inr (high, fits) ↦
            let high_start : block_start (field_of c).address (two settings network) ≡ 100 =
              ground arith in
            let same : update_block 100 ((field_of c).address - 100) (length words) words
                  (two settings network)
                ≡ blocks =
              ground arith in
            rw same at
              (update_network settings network ls ln (field_of c).address words high (omega arith))
      ]

  pub change_blocks-Changed :
      (cs : List Change) (settings network : List ℕ) (blocks : Blocks)
      → length settings ≡ 5
      → length network ≡ 32
      → change_blocks enc cs (two settings network) ≡ some blocks
      → Changed settings network (after_changes enc cs) blocks
  unfolding change_blocks after_changes
  change_blocks-Changed [] settings network blocks ls ln h = record {
    new_settings = settings;
    new_network = network;
    shape = ground arith;
    settings_words = ls;
    network_words = ln;
    same_effect = λ memory a. refl;
  }
  change_blocks-Changed (c ∷ cs) settings network blocks ls ln h =
      elim (Option-cases (encode enc c)) [
        | inl e ↦ absurd (unfold change_block in ground arith)
        | inr (words, e) ↦ elim (Option-cases (change_block enc c (two settings network))) [
          | inl k ↦ absurd (ground arith)
          | inr (next, k) ↦
              let first = change_block-Changed c words settings network next e ls ln k in
              let loop : change_blocks enc cs next ≡ some blocks = ground arith in
              let rest =
                change_blocks-Changed cs first.new_settings first.new_network blocks
                  first.settings_words first.network_words (rw first.shape at loop) in
              record {
                new_settings = rest.new_settings;
                new_network = rest.new_network;
                shape = rest.shape;
                settings_words = rest.settings_words;
                network_words = rest.network_words;
                same_effect = λ memory a.
                    rest.same_effect memory a
                    ∙ rw (e, after_changes)
                        (ap (λ m. after_changes enc cs m a) (fun_ext (first.same_effect memory)));
              }
        ]
      ]
