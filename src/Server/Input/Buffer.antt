-- ===== src/Server/Input/Buffer.antt =====
-- What one program writes with `bufferevent_write(bev, json, MAX_BUFF)` and `readcb`
-- (server/server.c) finds in its buffer.
use chat_hub.Base.{
  ℕ, zero, suc, ◌-◌, ◌<◌, ◌≤◌, ◌≡◌, ◌∙◌, refl, ap, false, [], ◌∷◌, ◌++◌, length, take, drop, ◌==◌,
  arith, All, append_assoc, length-take,
}
use chat_hub.Run.{ok}
use chat_hub.Text.{Bytes}
use chat_hub.Config.{max_buff}
use chat_hub.Server.{buffer_of}
use chat_hub.Server.Input.{drain, c_string}

pub c_string_text :
    (s rest : Bytes) → All (λ c. (c == 0) ≡ false) s → c_string (s ++ 0 ∷ rest) ≡ ok s
unfolding c_string
c_string_text [] rest all = refl
c_string_text (c ∷ s) rest (h, all) = rw (h, c_string_text s rest all)

pub take_past :
    (n b : ℕ) (s rest : Bytes) → length s < n → (t : Bytes) × (take n (s ++ b ∷ rest) ≡ s ++ b ∷ t)
take_past zero b s rest h = ground arith
take_past (suc n) b [] rest h = (take n rest, refl)
take_past (suc n) b (c ∷ s) rest h =
    let (t, e) = take_past n b s rest (omega arith) in (t, ap (λ l. c ∷ l) e)

pub take_all : (n : ℕ) (s : Bytes) → length s ≤ n → take n s ≡ s
take_all zero [] h = refl
take_all zero (c ∷ s) h = ground arith
take_all (suc n) [] h = refl
take_all (suc n) (c ∷ s) h = rw (take_all n s (omega arith))

drop_all : (n : ℕ) (s : Bytes) → length s ≤ n → drop n s ≡ []
drop_all zero [] h = refl
drop_all zero (c ∷ s) h = ground arith
drop_all (suc n) [] h = refl
drop_all (suc n) (c ∷ s) h = drop_all n s (omega arith)

drain_nil : (f : ℕ) (buf : Bytes) → drain f [] buf ≡ buf
unfolding drain
drain_nil zero buf = refl
drain_nil (suc f) buf = refl

drain_step :
    (f : ℕ) (s buf : Bytes)
    → length s ≡ suc f
    → length s ≤ max_buff
    → drain (suc f) s buf ≡ s ++ drop (length s) buf
unfolding drain
drain_step f s buf e h =
    let some_left : (length s == 0) ≡ false = ground arith in
    rw (
      some_left,
      take_all max_buff s h,
      drop_all max_buff s h,
      drain_nil f (s ++ drop (length s) buf),
    )

-- One chunk: it stands at the front of the buffer.
drain_chunk :
    (s buf : Bytes)
    → 0 < length s
    → length s ≤ max_buff
    → drain (length s) s buf ≡ s ++ drop (length s) buf
drain_chunk s buf h small =
    ap (λ f. drain f s buf) (omega arith) ∙ drain_step (length s - 1) s buf (omega arith) small

pub c_string-drain :
    (i json t buf : Bytes)
    → i ≡ json ++ 0 ∷ t
    → length i ≤ max_buff
    → 0 < length i
    → All (λ c. (c == 0) ≡ false) json
    → c_string (drain (length i) i buf) ≡ ok json
c_string-drain i json t buf e small some_left all =
    ap c_string (
      drain_chunk i buf some_left small
      ∙ ap (λ x. x ++ drop (length i) buf) e
      ∙ append_assoc json (0 ∷ t) (drop (length i) buf))
    ∙ c_string_text json (t ++ drop (length i) buf) all

some_sent : (s t : Bytes) → 0 < length (s ++ 0 ∷ t)
some_sent [] t = omega arith
some_sent (c ∷ s) t = omega arith

-- A text of less than 4096 bytes, none of them 0, that is sent as MAX_BUFF bytes and read in one go
-- is what `readcb` then has in its buffer, whatever the sender's memory holds behind the text and
-- the stack of the receiver holds in the buffer.
pub c_string-drain-buffer_of :
    (json beyond uninitialised : Bytes)
    → All (λ c. (c == 0) ≡ false) json
    → length json < max_buff
    → c_string (drain (length (buffer_of json beyond)) (buffer_of json beyond) uninitialised)
      ≡ ok json
unfolding buffer_of
c_string-drain-buffer_of json beyond uninitialised all short =
    let (t, e) = take_past max_buff 0 json beyond short in
    c_string-drain _ json t uninitialised e
      (omega (arith, length-take max_buff (json ++ 0 ∷ beyond))) (rw e (some_sent json t)) all
