-- ===== src/Artnet/Mapper/Replay.antt =====
-- crates/control-artnet/src/mapper.rs: what a frame that comes again emits.
use videocuelist.Prelude.{
  ◌∙◌, Returns-mono, ◌⊎◌, Returns->>=, ℕ, ◌≡◌, ◌≢◌, refl, sym, ap, subst, List, [], ◌∷◌, Option,
  none, some, arith, Bool-cases, inl, inr, ◌>>=◌, Returns, ◌==◌, ==_iff,
}
use videocuelist.Float.{Floats}
use videocuelist.Core.Command.{Command}
use videocuelist.Artnet.Mapper.{
  PatchEntry, DmxMapper, never_seen, set_entries, entry_raw, entry_command, apply_entry,
  apply_entries, apply_frame,
}

module _ ⦃F : Floats⦄ where
  -- An entry to which the frame gives a value has seen that value last.
  abbrev HasSeen : Option ℕ → Option ℕ → Type 0
  HasSeen none last = Unit
  HasSeen (some raw) last = last ≡ some raw

  -- The mapper has seen the frame: as many last values as entries, each that of the frame.
  abbrev pub AllSeen : ℕ → List ℕ → List PatchEntry → List (Option ℕ) → Type 0
  AllSeen universe bytes [] [] = Unit
  AllSeen universe bytes [] (l ∷ ls) = ⊥
  AllSeen universe bytes (e ∷ es) [] = ⊥
  AllSeen universe bytes (e ∷ es) (l ∷ ls) =
      HasSeen (entry_raw universe bytes e) l × AllSeen universe bytes es ls

  -- As many last values as entries.
  abbrev pub IsAligned : List PatchEntry → List (Option ℕ) → Type 0
  IsAligned [] [] = Unit
  IsAligned [] (l ∷ ls) = ⊥
  IsAligned (e ∷ es) [] = ⊥
  IsAligned (e ∷ es) (l ∷ ls) = IsAligned es ls

  -- After an entry its value is seen, before what is seen of the entries that follow.
  apply_entry-seen :
      (e : PatchEntry) (l o : Option ℕ) (r : List Command × List (Option ℕ))
      → (x : Option ℕ) × ((apply_entry e l o r).1 ≡ x ∷ r.1) × HasSeen o x
  apply_entry-seen e l none r = (l, refl, tt)
  apply_entry-seen e none (some raw) r = (some raw, refl, refl)
  apply_entry-seen e (some last) (some raw) r = elim (Bool-cases (last == raw)) [
    | inl b ↦ (some last, rw b refl, ground (arith, b, ==_iff last raw))
    | inr b ↦ (some raw, rw b refl, refl)
  ]

  apply-AllSeen :
      (universe : ℕ) (bytes : List ℕ) (es : List PatchEntry) (ls : List (Option ℕ))
      → IsAligned es ls
      → Returns (λ r. AllSeen universe bytes es r.1) (apply_entries universe bytes es ls)
  unfolding apply_entries
  apply-AllSeen universe bytes [] [] a = tt
  apply-AllSeen universe bytes [] (l ∷ ls) a = absurd a
  apply-AllSeen universe bytes (e ∷ es) [] a = absurd a
  apply-AllSeen universe bytes (e ∷ es) (l ∷ ls) a =
      Returns->>= (λ r. AllSeen universe bytes es r.1) _ (apply_entries universe bytes es ls) _
        (apply-AllSeen universe bytes es ls a)
        (λ r h.
          let k = apply_entry-seen e l (entry_raw universe bytes e) r in
          subst (AllSeen universe bytes (e ∷ es)) (sym k.1) (k.2, h))

  AllSeen-IsAligned :
      (universe : ℕ) (bytes : List ℕ) (es : List PatchEntry) (ls : List (Option ℕ))
      → AllSeen universe bytes es ls
      → IsAligned es ls
  AllSeen-IsAligned universe bytes [] [] a = tt
  AllSeen-IsAligned universe bytes [] (l ∷ ls) a = absurd a
  AllSeen-IsAligned universe bytes (e ∷ es) [] a = absurd a
  AllSeen-IsAligned universe bytes (e ∷ es) (l ∷ ls) a = AllSeen-IsAligned universe bytes es ls a.1

  apply_entry-quiet :
      (e : PatchEntry) (l o : Option ℕ) (ls : List (Option ℕ))
      → HasSeen o l
      → apply_entry e l o ([], ls) ≡ ([], l ∷ ls)
  apply_entry-quiet e l none ls h = refl
  apply_entry-quiet e none (some raw) ls h = ground arith
  apply_entry-quiet e (some last) (some raw) ls h = ground (arith, h, ==_iff last raw)

  -- A frame that has been seen emits nothing and changes nothing.
  apply-quiet :
      (universe : ℕ) (bytes : List ℕ) (es : List PatchEntry) (ls : List (Option ℕ))
      → AllSeen universe bytes es ls
      → apply_entries universe bytes es ls ≡ some ([], ls)
  unfolding apply_entries
  apply-quiet universe bytes [] [] a = refl
  apply-quiet universe bytes [] (l ∷ ls) a = absurd a
  apply-quiet universe bytes (e ∷ es) [] a = absurd a
  apply-quiet universe bytes (e ∷ es) (l ∷ ls) a =
      rw (apply-quiet universe bytes es ls a.1)
        (ap some (apply_entry-quiet e l (entry_raw universe bytes e) ls a.0))

  -- A frame of another universe has no value for an entry of this one.
  other-entry_raw :
      (universe other : ℕ) (bytes bytes' : List ℕ) (e : PatchEntry)
      → other ≢ universe
      → (entry_raw universe bytes e ≡ none) ⊎ (entry_raw other bytes' e ≡ none)
  unfolding entry_raw
  other-entry_raw universe other bytes bytes' e n = elim (Bool-cases (e.universe == universe)) [
    | inl b ↦ inr (ground (arith, ==_iff e.universe universe, ==_iff e.universe other))
    | inr b ↦ inl (rw b refl)
  ]

  apply_entry-other :
      (e : PatchEntry) (l o o' : Option ℕ) (r : List Command × List (Option ℕ))
      → (o ≡ none) ⊎ (o' ≡ none)
      → HasSeen o l
      → (x : Option ℕ) × ((apply_entry e l o' r).1 ≡ x ∷ r.1) × HasSeen o x
  apply_entry-other e l o o' r (inl n) h = let k = apply_entry-seen e l o' r in (k.0, k.1, rw n tt)
  apply_entry-other e l o o' r (inr n) h = (l, rw n refl, h)

  -- Frames of other universes keep what was seen of this one.
  other-AllSeen :
      (universe other : ℕ) (bytes bytes' : List ℕ) (es : List PatchEntry) (ls : List (Option ℕ))
      → other ≢ universe
      → AllSeen universe bytes es ls
      → Returns (λ r. AllSeen universe bytes es r.1) (apply_entries other bytes' es ls)
  unfolding apply_entries
  other-AllSeen universe other bytes bytes' [] [] n a = tt
  other-AllSeen universe other bytes bytes' [] (l ∷ ls) n a = absurd a
  other-AllSeen universe other bytes bytes' (e ∷ es) [] n a = absurd a
  other-AllSeen universe other bytes bytes' (e ∷ es) (l ∷ ls) n a =
      Returns->>= (λ r. AllSeen universe bytes es r.1) _ (apply_entries other bytes' es ls) _
        (other-AllSeen universe other bytes bytes' es ls n a.1)
        (λ r h.
          let k =
            apply_entry-other e l (entry_raw universe bytes e) (entry_raw other bytes' e) r
              (other-entry_raw universe other bytes bytes' e n) a.0 in
          subst (AllSeen universe bytes (e ∷ es)) (sym k.1) (k.2, h))

  -- Frames one after the other, with all that they emit.
  unfoldable pub apply_frames : List (ℕ × List ℕ) → DmxMapper → Option DmxMapper
  unfolding apply_frame
  apply_frames [] m = some m
  apply_frames ((universe, bytes) ∷ fs) m = do
    (out, m₁) ← apply_frame universe bytes m
    apply_frames fs m₁

  -- Every frame is of another universe.
  abbrev pub AllOther : ℕ → List (ℕ × List ℕ) → Type 0
  AllOther universe [] = Unit
  AllOther universe ((other, bytes) ∷ fs) = (other ≢ universe) × AllOther universe fs

  -- The mapper has seen the frame.
  abbrev HasSeenFrame : ℕ → List ℕ → DmxMapper → Type 0
  HasSeenFrame universe bytes m = AllSeen universe bytes m.entries m.last_raw

  apply_frame-HasSeenFrame :
      (universe : ℕ) (bytes : List ℕ) (m : DmxMapper)
      → IsAligned m.entries m.last_raw
      → Returns (λ r. HasSeenFrame universe bytes r.1) (apply_frame universe bytes m)
  unfolding apply_frame
  apply_frame-HasSeenFrame universe bytes m a =
      Returns->>= (λ r. AllSeen universe bytes m.entries r.1) _
        (apply_entries universe bytes m.entries m.last_raw) _
        (apply-AllSeen universe bytes m.entries m.last_raw a) (λ r h. h)

  apply_frame-other :
      (universe other : ℕ) (bytes bytes' : List ℕ) (m : DmxMapper)
      → other ≢ universe
      → HasSeenFrame universe bytes m
      → Returns (λ r. HasSeenFrame universe bytes r.1) (apply_frame other bytes' m)
  unfolding apply_frame
  apply_frame-other universe other bytes bytes' m n a =
      Returns->>= (λ r. AllSeen universe bytes m.entries r.1) _
        (apply_entries other bytes' m.entries m.last_raw) _
        (other-AllSeen universe other bytes bytes' m.entries m.last_raw n a) (λ r h. h)

  apply_frames-other :
      (universe : ℕ) (bytes : List ℕ) (fs : List (ℕ × List ℕ)) (m : DmxMapper)
      → AllOther universe fs
      → HasSeenFrame universe bytes m
      → Returns (HasSeenFrame universe bytes) (apply_frames fs m)
  unfolding apply_frames
  apply_frames-other universe bytes [] m o a = a
  apply_frames-other universe bytes ((other, bytes') ∷ fs) m o a =
      Returns->>= (λ r. HasSeenFrame universe bytes r.1) _ (apply_frame other bytes' m) _
        (apply_frame-other universe other bytes bytes' m o.0 a)
        (λ r h. apply_frames-other universe bytes fs r.1 o.1 h)

  apply_frame-quiet :
      (universe : ℕ) (bytes : List ℕ) (m : DmxMapper)
      → HasSeenFrame universe bytes m
      → apply_frame universe bytes m ≡ some ([], m)
  unfolding apply_frame
  apply_frame-quiet universe bytes m a = rw (apply-quiet universe bytes m.entries m.last_raw a) refl

  -- A frame, then any frames of other universes, then the frame again: where there is a last value
  -- for each entry, none of them panics, and the frame that comes again emits nothing and leaves
  -- the mapper as it is.
  pub apply_frame-replay :
      (universe : ℕ) (bytes : List ℕ) (fs : List (ℕ × List ℕ)) (m : DmxMapper)
      → IsAligned m.entries m.last_raw
      → AllOther universe fs
      → Returns
          (λ r. Returns (λ m'. apply_frame universe bytes m' ≡ some ([], m')) (apply_frames fs r.1))
          (apply_frame universe bytes m)
  apply_frame-replay universe bytes fs m a o =
      Returns-mono (λ r. HasSeenFrame universe bytes r.1) _ (apply_frame universe bytes m)
        (λ r h.
          Returns-mono (HasSeenFrame universe bytes) _ (apply_frames fs r.1)
            (λ m' k. apply_frame-quiet universe bytes m' k)
            (apply_frames-other universe bytes fs r.1 o h))
        (apply_frame-HasSeenFrame universe bytes m a)

  abbrev prepend : PatchEntry → Option ℕ → List Command → List Command
  prepend e none cs = cs
  prepend e (some raw) cs = entry_command e raw ∷ cs

  -- The commands of all entries to which the frame gives a value, in the order of the patch.
  abbrev pub all_commands : ℕ → List ℕ → List PatchEntry → List Command
  all_commands universe bytes [] = []
  all_commands universe bytes (e ∷ es) =
      prepend e (entry_raw universe bytes e) (all_commands universe bytes es)

  apply_entry-prepend :
      (e : PatchEntry) (o : Option ℕ) (r : List Command × List (Option ℕ))
      → (apply_entry e none o r).0 ≡ prepend e o r.0
  apply_entry-prepend e none r = refl
  apply_entry-prepend e (some raw) r = refl

  fresh-all :
      (universe : ℕ) (bytes : List ℕ) (es : List PatchEntry)
      → Returns
          (λ r. r.0 ≡ all_commands universe bytes es)
          (apply_entries universe bytes es (never_seen es))
  unfolding apply_entries
  fresh-all universe bytes [] = refl
  fresh-all universe bytes (e ∷ es) =
      Returns->>= (λ r. r.0 ≡ all_commands universe bytes es) _
        (apply_entries universe bytes es (never_seen es)) _ (fresh-all universe bytes es)
        (λ r h.
          apply_entry-prepend e (entry_raw universe bytes e) r
          ∙ ap (prepend e (entry_raw universe bytes e)) h)

  -- The first frame after the patch is replaced does not panic, and emits the command of every
  -- entry to which it gives a value, in the order of the patch, whatever was seen before.
  pub set_entries-emits :
      (universe : ℕ) (bytes : List ℕ) (es : List PatchEntry) (m : DmxMapper)
      → Returns
          (λ r. r.0 ≡ all_commands universe bytes es)
          (apply_frame universe bytes (set_entries es m))
  unfolding apply_frame
  set_entries-emits universe bytes es m =
      Returns->>= (λ r. r.0 ≡ all_commands universe bytes es) _
        (apply_entries universe bytes es (never_seen es)) _ (fresh-all universe bytes es) (λ r h. h)
