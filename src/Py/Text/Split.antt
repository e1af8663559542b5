-- ===== src/Py/Text/Split.antt =====
-- That `split` takes apart what `join` has put together.
use mq.Base.{
  Text, false, List, [], ◌∷◌, ◌++◌, All, ◌≡◌, ◌≢◌, refl, sym, ap, ◌∙◌, append_assoc, append-nil,
}
use mq.Py.Text.{is_space, split, split_from, flush, join}

abbrev pub NoSpace : Text → Type 0
NoSpace = All (λ c. is_space c ≡ false)

-- Words as `split` gives them: neither empty nor with a space in them.
abbrev pub IsWord : Text → Type 0
IsWord w = NoSpace w × (w ≢ [])

abbrev pub phrase : List Text → Text
phrase words = join (32 ∷ []) words

split_from-append : (w t s : Text) → NoSpace t → split_from w (t ++ s) ≡ split_from (w ++ t) s
unfolding split_from
split_from-append w [] s h = ap (λ (v : Text). split_from v s) (sym (append-nil w))
split_from-append w (c ∷ t) s h = rw h.0 (
    split_from-append (w ++ c ∷ []) t s h.1
    ∙ ap (λ (v : Text). split_from v s) (append_assoc w (c ∷ []) t))

split_from-end : (w t : Text) → NoSpace t → split_from w t ≡ flush (w ++ t) []
unfolding split_from
split_from-end w [] h = ap (λ (v : Text). flush v []) (sym (append-nil w))
split_from-end w (c ∷ t) h =
    rw h.0 (
      split_from-end (w ++ c ∷ []) t h.1
      ∙ ap (λ (v : Text). flush v []) (append_assoc w (c ∷ []) t))

flush-word : (w : Text) (ws : List Text) → w ≢ [] → flush w ws ≡ w ∷ ws
flush-word [] ws h = absurd (h refl)
flush-word (c ∷ w) ws h = refl

split_from-space : (w s : Text) → split_from w (32 ∷ s) ≡ flush w (split_from [] s)
unfolding split_from is_space
split_from-space w s = refl

-- The words of a phrase are the words that it was made of.
pub split-phrase : (words : List Text) → All IsWord words → split (phrase words) ≡ words
unfolding split join
split-phrase [] h = refl
split-phrase (w ∷ []) h = split_from-end [] w h.0.0 ∙ flush-word w [] h.0.1
split-phrase (w ∷ (v ∷ words)) h =
    split_from-append [] w (32 ∷ phrase (v ∷ words)) h.0.0
    ∙ split_from-space w (phrase (v ∷ words))
    ∙ flush-word w _ h.0.1
    ∙ ap (λ (ws : List Text). w ∷ ws) (split-phrase (v ∷ words) h.1)
