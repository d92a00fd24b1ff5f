-- ===== src/Config/Examples.antt =====
-- The theorems on users and messages at concrete values.
use chat_hub.Base.{◌+◌, ◌*◌, ◌<◌, ◌≤◌, ◌≡◌, refl, some, ◌++◌, pos, abs, arith}
use chat_hub.Run.{ok, fault, out_of_bounds}
use chat_hub.Text.{Bytes, codes}
use chat_hub.Text.Scan.{IsWord}
use chat_hub.Config.{
  User, Message, new_user, new_message, Timeval, current_time_millis, user2msg, msg2user,
}
use chat_hub.Config.Clock.{current_time_millis_floor}
use chat_hub.Config.RoundTrip.{IsName, msg2user-user2msg, msg2user_overflow}

abbrev noon : Timeval
noon = record { tv_sec = 1530000000; tv_usec = 999999 }

current_time_millis_floor_example :
    (abs (current_time_millis noon) * 1000 ≤ 1530000000 * 1000000 + 999999)
    × (1530000000 * 1000000 + 999999 < (abs (current_time_millis noon) + 1) * 1000)
current_time_millis_floor_example = current_time_millis_floor noon (omega arith)

abbrev simon : User
simon = record new_user {
  username = codes "simon";
  pass = codes "1111";
  register_time = pos 1530000000000;
}

simon-IsName : IsName (codes "simon")
simon-IsName = record {
  word = record { some_byte = ground arith; solid = (refl, (refl, (refl, (refl, (refl, tt))))) };
  short = omega arith;
}

pass-IsName : IsName (codes "1111")
pass-IsName = record {
  word = record { some_byte = ground arith; solid = (refl, (refl, (refl, (refl, tt)))) };
  short = omega arith;
}

msg2user-user2msg_example :
    (m : Message) × (user2msg simon ≡ ok (some m))
    × (msg2user m (pos 0)
        ≡ ok (record new_user {
          username = codes "simon";
          pass = codes "1111";
          register_time = pos 1530000000000;
        }))
msg2user-user2msg_example =
    msg2user-user2msg simon (pos 0) simon-IsName pass-IsName (ground arith) (omega arith)

abbrev long_name : Bytes
long_name = codes "a_name_of_twenty_one"

long_name-IsWord : IsWord long_name
long_name-IsWord = record {
  some_byte = ground arith;
  solid = (
    refl,
    (
      refl,
      (
        refl,
        (
          refl,
          (
            refl,
            (
              refl,
              (
                refl,
                (
                  refl,
                  (
                    refl,
                    (
                      refl,
                      (
                        refl,
                        (refl, (refl, (refl, (refl, (refl, (refl, (refl, (refl, (refl, tt))))))))),
                      ),
                    ),
                  ),
                ),
              ),
            ),
          ),
        ),
      ),
    ),
  );
}

msg2user_overflow_example :
    msg2user (record new_message { msg = long_name ++ codes " 1111 0" }) (pos 0)
    ≡ fault out_of_bounds
msg2user_overflow_example =
    msg2user_overflow (record new_message { msg = long_name ++ codes " 1111 0" }) (pos 0) long_name
      (codes " 1111 0") long_name-IsWord refl (omega arith) (omega arith) refl
