-- ===== src/Ingest/Calls.antt =====
-- The calls of `ntrip_server_on_frame` (main/interface/ntrip_server.c) for the frames of one chunk.
use mathlib.Core.List.{List, [], ◌∷◌, ◌++◌, append-nil, append_assoc}
use mathlib.Core.Option.{Option, none, some}
use mathlib.Core.Path.{subst}
use rtkdata_fw.Base.{ℕ, ◌*◌, ◌^◌, ◌≤◌, ◌<◌, ◌≡◌, refl, ap, sym, ◌∙◌, arith, leb}
use rtkdata_fw.Base.{if-case, length, length-append, All, All-append}
use rtkdata_fw.Parser.{Parser, feed}
use rtkdata_fw.Parser.Frame.{frame, IsPayload, length-frame}
use rtkdata_fw.Parser.Emits.{collect, IsFrame}
use rtkdata_fw.Parser.Callback.{feed-map}
use rtkdata_fw.Supervisor.{Supervisor, note_gnss_rx}
use rtkdata_fw.Freshness.{Evidence, note_frame}
use rtkdata_fw.Ring.History.{Entry, History, Holds, total, total-append, push-Holds}
use rtkdata_fw.Ingest.{Sink, on_frame, now_ms}
use rtkdata_fw.Ingest.Heard.{dated, last_of, alive_at, IsEncoded}

-- The sink after these frames, with this last sign of life.
pub record Recorded (s0 : Supervisor) (frames : History) (last : Option ℕ) (s : Sink) : Type 0 where
  pub bytes : total frames ≤ 1029 * length frames
  pub valid : All IsEncoded frames
  pub held : length frames < 2 ^ 32 → Holds s.ring frames
  pub alive : s.supervisor ≡ alive_at last s0

again_alive :
    (last : Option ℕ) (now_us : ℕ) (s0 : Supervisor)
    → note_gnss_rx now_us (alive_at last s0) ≡ note_gnss_rx now_us s0
unfolding note_gnss_rx
again_alive none now_us s0 = refl
again_alive (some t) now_us s0 = refl

note_frame-reset_req :
    (f : List ℕ) (now : ℕ) (e : Evidence) → (note_frame f now e).reset_req ≡ e.reset_req
unfolding note_frame
note_frame-reset_req f now e =
    if-case (λ (x : Evidence). x.reset_req ≡ e.reset_req) (leb 6 (length f)) (λ _. refl) (λ _. refl)

module _ (s0 : Supervisor) (now_us : ℕ) where
  abbrev now : ℕ
  now = now_ms now_us

  -- The callback on one frame after the other.
  pub call_all : List (List ℕ) → Sink → Sink
  call_all [] s = s
  call_all (f ∷ fs) s = call_all fs (on_frame now_us f now s)

  call_all-snoc :
      (fs : List (List ℕ)) (f : List ℕ) (s : Sink)
      → call_all (fs ++ (f ∷ [])) s ≡ on_frame now_us f now (call_all fs s)
  unfolding call_all
  call_all-snoc [] f s = refl
  call_all-snoc (x ∷ fs) f s = call_all-snoc fs f (on_frame now_us x now s)

  on_frame-Recorded :
      (payload : List ℕ) (h : History) (last : Option ℕ) (s : Sink)
      → IsPayload payload
      → Recorded s0 h last s
      → Recorded s0
          (h ++ (record { frame = frame payload; at = now } ∷ []))
          (some now_us)
          (on_frame now_us (frame payload) now s)
  unfolding on_frame total
  on_frame-Recorded payload h last s v r =
      let f = frame payload in
      let e : Entry = record { frame = f; at = now } in
      let size = length-frame payload in
      let small = v.fits in
      let grown = length-append h (e ∷ []) in
      let heavier = total-append h (e ∷ []) in
      record {
        bytes = omega (arith, grown, heavier, r.bytes, size, small);
        valid = All-append IsEncoded h (e ∷ []) r.valid ((payload, v, refl), tt);
        held = λ k.
            push-Holds (r.held (omega (arith, grown, k))) f now (omega (arith, grown, k))
              (omega (arith, grown, k, r.bytes, size, small))
              (omega (arith, size), omega (arith, size, small));
        alive = ap (note_gnss_rx now_us) r.alive ∙ again_alive last now_us s0;
      }

  pub call_all-Recorded :
      (fs : List (List ℕ)) (h : History) (last : Option ℕ) (s : Sink)
      → All IsFrame fs
      → Recorded s0 h last s
      → Recorded s0 (h ++ dated now fs) (last_of now_us fs last) (call_all fs s)
  unfolding call_all
  call_all-Recorded [] h last s v r = subst (λ l. Recorded s0 l last s) (sym (append-nil h)) r
  call_all-Recorded (f ∷ fs) h last s v r =
      let e : Entry = record { frame = f; at = now } in
      let step =
        subst
          (λ x.
            Recorded s0 (h ++ (record { frame = x; at = now } ∷ [])) (some now_us)
              (on_frame now_us x now s))
          (sym v.0.2) (on_frame-Recorded v.0.0 h last s v.0.1 r) in
      subst (λ l. Recorded s0 l (some now_us) (call_all fs (on_frame now_us f now s)))
        (append_assoc h (e ∷ []) (dated now fs))
        (subst
          (λ o.
            Recorded s0 ((h ++ (e ∷ [])) ++ dated now fs) o (call_all fs (on_frame now_us f now s)))
          (last_of-some fs)
          (call_all-Recorded fs (h ++ (e ∷ [])) (some now_us) (on_frame now_us f now s) v.1 step))
    where
      last_of-some : (gs : List (List ℕ)) → last_of now_us gs (some now_us) ≡ some now_us
      last_of-some [] = refl
      last_of-some (g ∷ gs) = refl

  pub call_all-reset_req :
      (fs : List (List ℕ)) (s : Sink) → (call_all fs s).evidence.reset_req ≡ s.evidence.reset_req
  unfolding call_all on_frame
  call_all-reset_req [] s = refl
  call_all-reset_req (f ∷ fs) s =
      call_all-reset_req fs (on_frame now_us f now s) ∙ note_frame-reset_req f now s.evidence

  -- The whole chunk: the parser hands out what it hands out to the callback that collects.
  pub feed-call_all :
      (p : Parser) (bytes : List ℕ) (s : Sink)
      → feed (on_frame now_us) now p bytes s
        ≡ (let r = feed collect now p bytes [] in (r.0, call_all r.1 s))
  unfolding call_all
  feed-call_all p bytes s =
      feed-map (on_frame now_us) collect now (λ fs. call_all fs s) (λ f fs. call_all-snoc fs f s) p
        bytes []
