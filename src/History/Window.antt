-- ===== src/History/Window.antt =====
-- The buffer holds the last points added (pkg/cluster/history.go).
use crybaby.Base.{
  append_assoc, append_nil, ℕ, suc, zero, ◌-◌, ◌≤◌, ◌<◌, ◌≡◌, refl, ap, sym, ◌∙◌, ℤ, pos, negsuc,
  List, [], ◌∷◌, ◌++◌, arith, length, drop, length-append, min, true, dec_le,
}
use crybaby.Base.Int.{nonpositive}
use crybaby.History.{HistoryBuffer, new_history_buffer, at_least, tail, add, get_points, add_all}
use crybaby.Types.Cluster.{TelemetryPoint}

-- The last `k` of a list.
abbrev pub last : ℕ → List TelemetryPoint → List TelemetryPoint
last k xs = drop (length xs - k) xs

length-drop : (n : ℕ) (xs : List TelemetryPoint) → length (drop n xs) ≡ length xs - n
length-drop zero xs = omega arith
length-drop (suc n) [] = omega arith
length-drop (suc n) (x ∷ xs) = omega (arith, length-drop n xs)

drop-append :
    (n : ℕ) (xs ys : List TelemetryPoint) → n ≤ length xs → drop n (xs ++ ys) ≡ drop n xs ++ ys
drop-append zero xs ys h = refl
drop-append (suc n) [] ys h = absurd (omega arith)
drop-append (suc n) (x ∷ xs) ys h = drop-append n xs ys (omega arith)

tail-drop : (n : ℕ) (xs : List TelemetryPoint) → tail (drop n xs) ≡ drop (suc n) xs
tail-drop zero [] = refl
tail-drop zero (x ∷ xs) = refl
tail-drop (suc n) [] = refl
tail-drop (suc n) (x ∷ xs) = tail-drop n xs

new_capacity :
    (capacity : ℤ)
    → (c : ℕ) × ((new_history_buffer capacity).capacity ≡ pos (suc c))
      × (nonpositive capacity ≡ true → c ≡ 29)
unfolding new_history_buffer
new_capacity (pos zero) = (29, refl, λ _. refl)
new_capacity (pos (suc c)) = (c, refl, λ h. absurd (ground arith))
new_capacity (negsuc n) = (29, refl, λ _. refl)

no_points : (capacity : ℤ) → (new_history_buffer capacity).points ≡ []
unfolding new_history_buffer
no_points capacity = refl

add_full :
    (c : ℕ) (h : HistoryBuffer) (p : TelemetryPoint)
    → h.capacity ≡ pos c
    → c ≤ length h.points
    → (add p.timestamp h p.cpu p.ram_pct).points ≡ tail h.points ++ p ∷ []
unfolding add at_least
add_full c h p cap full = ground arith

add_free :
    (c : ℕ) (h : HistoryBuffer) (p : TelemetryPoint)
    → h.capacity ≡ pos c
    → length h.points < c
    → (add p.timestamp h p.cpu p.ram_pct).points ≡ h.points ++ p ∷ []
unfolding add at_least
add_free c h p cap free = ground arith

length-last : (k : ℕ) (xs : List TelemetryPoint) → length (last k xs) ≡ length xs - (length xs - k)
length-last k xs = length-drop (length xs - k) xs

last_full :
    (c : ℕ) (xs : List TelemetryPoint) (p : TelemetryPoint)
    → suc c ≤ length xs
    → tail (last (suc c) xs) ++ p ∷ [] ≡ last (suc c) (xs ++ p ∷ [])
last_full c xs p full =
    let at : length (xs ++ p ∷ []) - suc c ≡ suc (length xs - suc c) =
      omega (arith, length-append xs (p ∷ [])) in
    (ap (λ l. l ++ p ∷ []) (tail-drop (length xs - suc c) xs)
      ∙ sym (drop-append (suc (length xs - suc c)) xs (p ∷ []) (omega arith)))
    ∙ ap (λ n. drop n (xs ++ p ∷ [])) (sym at)

last_free : (k : ℕ) (xs : List TelemetryPoint) → length xs ≤ k → last k xs ≡ xs
last_free k xs h = let z : length xs - k ≡ 0 = omega arith in ap (λ n. drop n xs) z

last_nil : (k : ℕ) → last k [] ≡ []
last_nil k = last_free k [] (omega arith)

add-last :
    (c : ℕ) (h : HistoryBuffer) (xs : List TelemetryPoint) (p : TelemetryPoint)
    → h.capacity ≡ pos (suc c)
    → h.points ≡ last (suc c) xs
    → (add p.timestamp h p.cpu p.ram_pct).points ≡ last (suc c) (xs ++ p ∷ [])
add-last c h xs p cap e =
    let size : length h.points ≡ length xs - (length xs - suc c) =
      ap length e ∙ length-last (suc c) xs in
    elim (dec_le (suc c) (length xs)) [
      | yes full ↦
          (add_full (suc c) h p cap (omega arith) ∙ ap (λ l. tail l ++ p ∷ []) e)
          ∙ last_full c xs p full
      | no free ↦
          (add_free (suc c) h p cap (omega arith)
            ∙ ap (λ l. l ++ p ∷ []) (e ∙ last_free (suc c) xs (omega arith)))
          ∙ sym (last_free (suc c) (xs ++ p ∷ []) (omega (arith, length-append xs (p ∷ []))))
    ]

add-capacity :
    (seconds : ℤ) (h : HistoryBuffer) (cpu ram : ℕ) → (add seconds h cpu ram).capacity ≡ h.capacity
unfolding add at_least
add-capacity seconds h cpu ram = ground arith

add_all-last :
    (c : ℕ) (h : HistoryBuffer) (xs ps : List TelemetryPoint)
    → h.capacity ≡ pos (suc c)
    → h.points ≡ last (suc c) xs
    → (add_all h ps).points ≡ last (suc c) (xs ++ ps)
add_all-last c h xs [] cap e = e ∙ ap (last (suc c)) (sym (append_nil xs))
add_all-last c h xs (p ∷ ps) cap e =
    add_all-last c (add p.timestamp h p.cpu p.ram_pct) (xs ++ p ∷ []) ps
      (add-capacity p.timestamp h p.cpu p.ram_pct ∙ cap) (add-last c h xs p cap e)
    ∙ ap (last (suc c)) (append_assoc xs (p ∷ []) ps)

-- Whatever is added to a new buffer, it holds the last points added, in their order: as many as
-- its capacity, which is 30 for a capacity that is not positive, and all of them until it is full.
pub add_all-get_points :
    (capacity : ℤ) (ps : List TelemetryPoint)
    → (c : ℕ) × ((new_history_buffer capacity).capacity ≡ pos (suc c))
      × (nonpositive capacity ≡ true → c ≡ 29)
      × (get_points (add_all (new_history_buffer capacity) ps) ≡ last (suc c) ps)
      × (length (get_points (add_all (new_history_buffer capacity) ps)) ≡ min (suc c) (length ps))
unfolding get_points
add_all-get_points capacity ps =
    let (c, cap, thirty) = new_capacity capacity in
    let all =
      add_all-last c (new_history_buffer capacity) [] ps cap
        (no_points capacity ∙ sym (last_nil (suc c))) in
    (c, cap, thirty, all, (ap length all ∙ length-last (suc c) ps) ∙ omega arith)
