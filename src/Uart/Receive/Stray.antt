-- ===== src/Uart/Receive/Stray.antt =====
-- What `uart_rx_task` of examples/uart-test.rs counts, and its stray bytes.
use scoreboard_ctrl.Base.{
  ℕ, ◌+◌, ◌*◌, ◌%◌, ◌≤◌, ◌<◌, ◌≡◌, refl, ap, Bool, true, false, Bool-cases, inl, inr, List, ◌∷◌,
  length, length-set, set, ◌==◌, if◌then◌else◌, Run, done, ◌>>=◌, store, store_lem, arith,
}
use scoreboard_ctrl.Serial.Collect.{AllBytes-set}
use scoreboard_ctrl.Uart.Receive.{rx_line, u32_size, Entry, Rx, take_stray, on_stray}
use scoreboard_ctrl.Uart.Receive.Show.{Held, IsValid, front-done}

-- The bytes that are counted as stray or as packets, or wait to be.
abbrev pub account : Rx → ℕ
account s = s.rx_stray + s.stray_n + s.pkt_n + 6 * s.rx_pkts

-- The step does not panic, leaves a valid state and, once a packet was logged, has counted `k` bytes.
pub record Counts (k : ℕ) (s : Rx) (r : Run Rx) : Type 0 where
  pub to : Rx
  pub ran : r ≡ done to
  pub valid : IsValid to
  pub logged : s.have_logged ≡ true → to.have_logged ≡ true
  pub counted : s.have_logged ≡ true → account to % u32_size ≡ (account s + k) % u32_size

take_stray-done :
    (s : Rx)
    → IsValid s
    → (n : ℕ) × (g : List Entry) × (take_stray s
        ≡ done (record s { rx_stray = n; log = g; stray_n = 0 }))
      × (n % u32_size ≡ (s.rx_stray + s.stray_n) % u32_size)
unfolding take_stray
take_stray-done s v =
    let (text, cut, e) = front-done s.stray_buf s.stray_n rx_line v.stray in
    elim (Bool-cases (s.stray_n == 0)) [
      | inl q ↦
          (let empty : s.stray_n ≡ 0 = ground arith in
            (
              s.rx_stray,
              s.log,
              rw q (ap (λ k. done (record s { stray_n = k })) empty),
              omega arith,
            ))
      | inr q ↦ (
        (s.rx_stray + s.stray_n) % u32_size,
        Entry.stray text ∷ s.log,
        rw (q, cut, e) refl,
        omega arith,
      )
    ]

pub take_stray-Counts : (s : Rx) → IsValid s → Counts 0 s (take_stray s)
take_stray-Counts s v =
    let (n, g, e, k) = take_stray-done s v in
    record {
      to = record s { rx_stray = n; log = g; stray_n = 0 };
      ran = e;
      valid = record {
        line = v.line;
        packet = v.packet;
        partial = v.partial;
        stray = record { size_eq = v.stray.size_eq; index = omega arith; bytes = v.stray.bytes };
        raw_size = v.raw_size;
      };
      logged = λ h. h;
      counted = λ h. omega (arith, k);
    }

-- A byte stored at an index.
pub Held-store :
    (size : ℕ) (buf : List ℕ) (n i m byte : ℕ)
    → Held size buf n
    → byte < 256
    → i < size
    → m ≤ size
    → (store buf i byte ≡ done (set buf i byte)) × Held size (set buf i byte) m
Held-store size buf n i m byte h b l k = (
  store_lem buf i byte (omega (arith, h.size_eq)),
  record {
    size_eq = omega (arith, length-set buf i byte, h.size_eq);
    index = k;
    bytes = AllBytes-set buf i byte h.bytes b;
  },
)

-- One step after another.
pub Counts-bind :
    (k m : ℕ) (s : Rx) (r : Run Rx) (f : Rx → Run Rx)
    → Counts k s r
    → ((t : Rx) → r ≡ done t → IsValid t → Counts m t (f t))
    → Counts (k + m) s (r >>= f)
Counts-bind k m s r f c g =
    let d = g c.to c.ran c.valid in
    record {
      to = d.to;
      ran = rw (c.ran) d.ran;
      valid = d.valid;
      logged = λ h. d.logged (c.logged h);
      counted = λ h. omega (arith, c.counted h, d.counted (c.logged h));
    }

-- A step from `t`, where `k` bytes were counted since `s`.
pub Counts-after :
    (k m : ℕ) (s t : Rx) (r : Run Rx)
    → (s.have_logged ≡ true → t.have_logged ≡ true)
    → account t % u32_size ≡ (account s + k) % u32_size
    → Counts m t r
    → Counts (k + m) s r
Counts-after k m s t r l e c = record {
  to = c.to;
  ran = c.ran;
  valid = c.valid;
  logged = λ h. c.logged (l h);
  counted = λ h. omega (arith, e, c.counted (l h));
}

-- `added` of `on_stray`.
on_stray-added :
    (byte : ℕ) (s : Rx)
    → IsValid s
    → byte < 256
    → s.stray_n < rx_line
    → Counts 1 s (do
      buf ← store s.stray_buf s.stray_n byte
      done (record s { stray_buf = buf; stray_n = s.stray_n + 1 }))
on_stray-added byte s v b l =
    let (e, held) =
      Held-store rx_line s.stray_buf s.stray_n s.stray_n (s.stray_n + 1) byte v.stray b l
        (omega arith) in
    record {
      to = record s { stray_buf = set s.stray_buf s.stray_n byte; stray_n = s.stray_n + 1 };
      ran = rw e refl;
      valid = record {
        line = v.line;
        packet = v.packet;
        partial = v.partial;
        stray = held;
        raw_size = v.raw_size;
      };
      logged = λ h. h;
      counted = λ h. omega arith;
    }

-- The byte behind what makes room for it.
abbrev room_then : ℕ → Rx → Run Rx
room_then byte s = do
  s' ← (if s.stray_n == length s.stray_buf then take_stray s else done s)
  buf ← store s'.stray_buf s'.stray_n byte
  done (record s' { stray_buf = buf; stray_n = s'.stray_n + 1 })

room_then-Counts : (byte : ℕ) (s : Rx) → IsValid s → byte < 256 → Counts 1 s (room_then byte s)
room_then-Counts byte s v b = elim (Bool-cases (s.stray_n == length s.stray_buf)) [
  | inl full ↦
      (let (n, g, e, k) = take_stray-done s v in
        let t : Rx = record s { rx_stray = n; log = g; stray_n = 0 } in
        let empty : Held rx_line s.stray_buf 0 = record {
          size_eq = v.stray.size_eq;
          index = omega arith;
          bytes = v.stray.bytes;
        } in
        let w : IsValid t = record {
          line = v.line;
          packet = v.packet;
          partial = v.partial;
          stray = empty;
          raw_size = v.raw_size;
        } in
        rw (full, e)
          (Counts-after 0 1 s t _ (λ h. h) (omega (arith, k))
            (on_stray-added byte t w b (omega arith))))
  | inr room ↦ rw room (on_stray-added byte s v b (ground (arith, v.stray.size_eq, v.stray.index)))
]

pub on_stray-Counts : (byte : ℕ) (s : Rx) → IsValid s → byte < 256 → Counts 1 s (on_stray byte s)
unfolding on_stray
on_stray-Counts byte s v b = go s.have_logged refl
  where
    go : (x : Bool) → s.have_logged ≡ x → Counts 1 s (if x then room_then byte s else done s)
    go true h = room_then-Counts byte s v b
    go false h = record {
      to = s;
      ran = refl;
      valid = v;
      logged = λ k. k;
      counted = λ k. absurd (ground arith);
    }
