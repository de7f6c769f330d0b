-- ===== src/Bencode/Picking.antt =====
-- admin/torrentfile.go: `pickVideoFile`.
use phimtor.Base.{
  ℕ, ◌≤◌, true, false, not, ◌⊎◌, inl, inr, Option, none, some, List, [], ◌∷◌, All, if_elim, ◌≡◌,
  refl, sym, ap, ◌∙◌, arith,
}
use phimtor.Base.Bytes.{Bytes}
use phimtor.Bencode.Files.{
  TorrentFileEntry, offset, is_better, is_video, pick_loop, pick_video_file,
}

module _ (to_lower : Bytes → Bytes) where
  abbrev pub IsAmong : TorrentFileEntry → List TorrentFileEntry → Type 0
  IsAmong f [] = ⊥
  IsAmong f (g ∷ gs) = (g ≡ f) ⊎ IsAmong f gs

  -- A video file is not larger.
  abbrev pub IsBelow : TorrentFileEntry → TorrentFileEntry → Type 0
  IsBelow f g = is_video to_lower g ≡ true → offset g.size ≤ offset f.size

  abbrev pub IsPicked : List TorrentFileEntry → Option TorrentFileEntry → Type 0
  IsPicked fs none = All (λ (g : TorrentFileEntry). is_video to_lower g ≡ false) fs
  IsPicked fs (some f) = IsAmong f fs × (is_video to_lower f ≡ true) × All (IsBelow f) fs

  -- With a best file so far, the result is it or a later video, and at least as large.
  abbrev IsKept : TorrentFileEntry → List TorrentFileEntry → Option TorrentFileEntry → Type 0
  IsKept best fs none = ⊥
  IsKept best fs (some f) =
      ((best ≡ f) ⊎ (IsAmong f fs × (is_video to_lower f ≡ true)))
      × (offset best.size ≤ offset f.size)
      × All (IsBelow f) fs

  IsKept-skip :
      (best g : TorrentFileEntry) (fs : List TorrentFileEntry) (o : Option TorrentFileEntry)
      → IsKept best fs o
      → (is_video to_lower g ≡ true → offset g.size ≤ offset best.size)
      → IsKept best (g ∷ fs) o
  IsKept-skip best g fs none h n = h
  IsKept-skip best g fs (some f) h n = (later h.0, h.1, (λ v. atmost (n v) h.1, h.2))
    where
      atmost : {a b c : ℕ} → a ≤ b → b ≤ c → a ≤ c
      atmost p q = omega arith

      later :
          (best ≡ f) ⊎ (IsAmong f fs × (is_video to_lower f ≡ true))
          → (best ≡ f) ⊎ (IsAmong f (g ∷ fs) × (is_video to_lower f ≡ true))
      later (inl e) = inl e
      later (inr (m, v)) = inr (inr m, v)

  IsKept-take :
      (best g : TorrentFileEntry) (fs : List TorrentFileEntry) (o : Option TorrentFileEntry)
      → IsKept g fs o
      → is_video to_lower g ≡ true
      → offset best.size ≤ offset g.size
      → IsKept best (g ∷ fs) o
  IsKept-take best g fs none h v n = h
  IsKept-take best g fs (some f) h v n = (inr (found h.0), atmost n h.1, (λ q. h.1, h.2))
    where
      atmost : {a b c : ℕ} → a ≤ b → b ≤ c → a ≤ c
      atmost p q = omega arith

      found :
          (g ≡ f) ⊎ (IsAmong f fs × (is_video to_lower f ≡ true))
          → IsAmong f (g ∷ fs) × (is_video to_lower f ≡ true)
      found (inl e) = (inl e, ap (λ x. is_video to_lower x) (sym e) ∙ v)
      found (inr (m, w)) = (inr m, w)

  pick_loop-IsKept :
      (best : TorrentFileEntry) (fs : List TorrentFileEntry)
      → IsKept best fs (pick_loop to_lower (some best) fs)
  unfolding pick_loop
  pick_loop-IsKept best [] = (inl refl, omega arith, tt)
  pick_loop-IsKept best (f ∷ fs) =
      if_elim (IsKept best (f ∷ fs)) (not (is_video to_lower f)) _ _
        (λ e. IsKept-skip best f fs _ (pick_loop-IsKept best fs) (λ v. absurd (ground arith)))
        (λ e.
          if_elim (IsKept best (f ∷ fs)) (is_better f (some best)) _ _
            (λ q. IsKept-take best f fs _ (pick_loop-IsKept f fs) (ground arith) (ground arith))
            (λ q. IsKept-skip best f fs _ (pick_loop-IsKept best fs) (λ v. ground arith)))

  IsPicked-take :
      (g : TorrentFileEntry) (fs : List TorrentFileEntry) (o : Option TorrentFileEntry)
      → IsKept g fs o
      → is_video to_lower g ≡ true
      → IsPicked (g ∷ fs) o
  IsPicked-take g fs none h v = absurd h
  IsPicked-take g fs (some f) h v = ((found h.0).0, (found h.0).1, (λ q. h.1, h.2))
    where
      found :
          (g ≡ f) ⊎ (IsAmong f fs × (is_video to_lower f ≡ true))
          → IsAmong f (g ∷ fs) × (is_video to_lower f ≡ true)
      found (inl e) = (inl e, ap (λ x. is_video to_lower x) (sym e) ∙ v)
      found (inr (m, w)) = (inr m, w)

  IsPicked-skip :
      (g : TorrentFileEntry) (fs : List TorrentFileEntry) (o : Option TorrentFileEntry)
      → IsPicked fs o
      → is_video to_lower g ≡ false
      → IsPicked (g ∷ fs) o
  IsPicked-skip g fs none h v = (v, h)
  IsPicked-skip g fs (some f) h v = (inr h.0, h.1, (λ q. absurd (ground arith), h.2))

  -- The file that is picked is a video of the list, and no video of the list is larger; none is picked
  -- only when the list has no video.
  pub pick_video_file-IsPicked :
      (fs : List TorrentFileEntry) → IsPicked fs (pick_video_file to_lower fs)
  unfolding pick_video_file pick_loop
  pick_video_file-IsPicked [] = tt
  pick_video_file-IsPicked (f ∷ fs) =
      if_elim (IsPicked (f ∷ fs)) (not (is_video to_lower f)) _ _
        (λ e. IsPicked-skip f fs _ (pick_video_file-IsPicked fs) (ground arith))
        (λ e. IsPicked-take f fs _ (pick_loop-IsKept f fs) (ground arith))
