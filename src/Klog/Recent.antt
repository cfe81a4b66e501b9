-- ===== src/Klog/Recent.antt =====
-- The log keeps the most recent part of what has been written to it.
use mathlib.Core.List.{append_assoc, append-nil}
use arcade_os.Base.{
  subst, ℕ, ◌≤◌, ◌≡◌, ◌∙◌, ◌⊎◌, inl, inr, refl, sym, ap, true, false, List, [], ◌∷◌, ◌++◌, leb,
  ◌==◌, if◌then◌else◌, take, drop, length, length-append, length-drop, take-append-drop, arith,
  Bool-cases,
}
use arcade_os.Klog.{Klog, klog_cap, half_cap, klog_putc}

-- What `klog_putc` counts as text: carriage returns are left out.
abbrev pub printed : List ℕ → List ℕ
printed [] = []
printed (c ∷ cs) = if c == 13 then printed cs else c ∷ printed cs

abbrev pub putc_all : List ℕ → Klog → Klog
putc_all [] k = k
putc_all (c ∷ cs) k = putc_all cs (klog_putc c k)

-- The log is the end of the history, the whole of it or at least half the capacity.
abbrev pub IsRecent : List ℕ → Klog → Type 0
IsRecent history k =
    (length k.text ≤ klog_cap)
    × ((dropped : List ℕ) × (history ≡ dropped ++ k.text)
        × ((dropped ≡ []) ⊎ (half_cap ≤ length k.text)))

-- A character that is put into the log.
abbrev Puts : List ℕ → ℕ → Klog → Type 0
Puts history c k' = IsRecent (history ++ c ∷ []) k' × (k'.flushing ≡ false)

full_long : (n : ℕ) → leb klog_cap n ≡ true → klog_cap ≤ n
full_long n full = ground arith

klog_putc-Puts :
    (history : List ℕ) (c : ℕ) (k : Klog)
    → IsRecent history k
    → k.flushing ≡ false
    → (c == 13) ≡ false
    → Puts history c (klog_putc c k)
unfolding klog_putc
klog_putc-Puts history c k (bound, (dropped, same, enough)) idle shown =
    elim (Bool-cases (leb klog_cap (length k.text))) [
      | inl full ↦
          rw (shown, full, idle)
            (
              (
                omega (
                  arith,
                  bound,
                  length-append (drop half_cap k.text) (c ∷ []),
                  length-drop half_cap k.text,
                ),
                (
                  dropped ++ take half_cap k.text,
                  ap (λ h. h ++ c ∷ []) same
                      ∙ ap (λ t. (dropped ++ t) ++ c ∷ []) (sym (take-append-drop half_cap k.text))
                      ∙ append_assoc dropped (take half_cap k.text ++ drop half_cap k.text) (c ∷ [])
                      ∙ ap (λ t. dropped ++ t)
                          (append_assoc (take half_cap k.text) (drop half_cap k.text) (c ∷ []))
                      ∙ sym (
                          append_assoc dropped (take half_cap k.text)
                            (drop half_cap k.text ++ c ∷ [])),
                  inr (
                      omega (
                        arith,
                        full_long (length k.text) full,
                        length-append (drop half_cap k.text) (c ∷ []),
                        length-drop half_cap k.text,
                      )),
                ),
              ),
              refl,
            )
      | inr room ↦
          rw (shown, room)
            (
              (
                ground (arith, room, length-append k.text (c ∷ [])),
                (
                  dropped,
                  ap (λ h. h ++ c ∷ []) same ∙ append_assoc dropped k.text (c ∷ []),
                  still enough,
                ),
              ),
              idle,
            )
    ]
  where
    still :
        {d : List ℕ}
        → (d ≡ []) ⊎ (half_cap ≤ length k.text)
        → (d ≡ []) ⊎ (half_cap ≤ length (k.text ++ c ∷ []))
    still (inl none_dropped) = inl none_dropped
    still (inr long) = inr (omega (arith, long, length-append k.text (c ∷ [])))

klog_putc-cr : (k : Klog) (c : ℕ) → (c == 13) ≡ true → klog_putc c k ≡ k
unfolding klog_putc
klog_putc-cr k c cr = rw cr refl

-- While no flush is under way, the log holds the end of all the text that it has been given: the
-- whole of it, or at least the last 16384 characters, and never more than its 32768 places.
pub putc_all-IsRecent :
    (cs history : List ℕ) (k : Klog)
    → IsRecent history k
    → k.flushing ≡ false
    → IsRecent (history ++ printed cs) (putc_all cs k)
putc_all-IsRecent [] history k recent idle =
    subst (λ h. IsRecent h k) (sym (append-nil history)) recent
putc_all-IsRecent (c ∷ cs) history k recent idle = elim (Bool-cases (c == 13)) [
  | inl cr ↦ rw cr (
      subst (λ k'. IsRecent (history ++ printed cs) (putc_all cs k')) (sym (klog_putc-cr k c cr))
        (putc_all-IsRecent cs history k recent idle))
  | inr shown ↦
      let (recent', idle') = klog_putc-Puts history c k recent idle shown in
      rw shown (
        subst (λ h. IsRecent h (putc_all cs (klog_putc c k)))
          (append_assoc history (c ∷ []) (printed cs))
          (putc_all-IsRecent cs (history ++ c ∷ []) (klog_putc c k) recent' idle'))
]

klog_putc-flushing :
    (c : ℕ) (k : Klog)
    → k.flushing ≡ true
    → ((klog_putc c k).flushing ≡ true)
      × ((first : List ℕ) × ((klog_putc c k).text ≡ k.text ++ first))
unfolding klog_putc
klog_putc-flushing c k busy = elim (Bool-cases (c == 13)) [
  | inl cr ↦ rw cr (busy, ([], sym (append-nil k.text)))
  | inr shown ↦ elim (Bool-cases (leb klog_cap (length k.text))) [
    | inl full ↦
        (ground (arith, full, busy), ([], ground (arith, shown, full, busy, append-nil k.text)))
    | inr room ↦ rw (shown, room) (busy, (c ∷ [], refl))
  ]
]

-- While a flush is under way, no character that is in the log moves: the text from before stays in
-- front of what is put in meanwhile, however much that is.
pub putc_all-flushing :
    (cs : List ℕ) (k : Klog)
    → k.flushing ≡ true
    → (more : List ℕ) × ((putc_all cs k).text ≡ k.text ++ more)
putc_all-flushing [] k busy = ([], sym (append-nil k.text))
putc_all-flushing (c ∷ cs) k busy =
    let (busy', (first, same)) = klog_putc-flushing c k busy in
    let (more, same') = putc_all-flushing cs (klog_putc c k) busy' in
    (first ++ more, same' ∙ ap (λ t. t ++ more) same ∙ append_assoc k.text first more)
