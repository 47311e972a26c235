-- ===== src/Tests/Registrations.antt =====
-- Phones that register.
use deep_orc.Prelude.{
  nat_eq, Text, codes, text_eq, strip, zero_pad, ◌≡◌, refl, true, some, List, [], ◌∷◌, ◌++◌,
}
use deep_orc.Models.{RegistrationRequest}
use deep_orc.Effects.{ok, ◌>>=◌}
use deep_orc.Database.{
  gateway_keyed, job_keyed, peer_keyed, group_keyed, worker_keyed, enrollment_keyed,
  registration_keyed,
}
use deep_orc.Database.Registrations.{is_waiting, get_by_key, get_by_display_code}
use deep_orc.Session.{State, query, outside, ask, read_world, commit}
use deep_orc.Headscale.Joining.{is_valid_registration_key}
use deep_orc.Registrations.{
  RegistrationHost, draw_code, allocate_display_code, new_request, register_page,
}
use deep_orc.Registrations.Codes.{CodesApart}
use deep_orc.Registrations.Reach.{visit, stay, step, codes-Apart}
use deep_orc.Tests.Sample.{World, succeeds, platform, database, session}
use deep_orc.Tests.Headscale.{host, config}

abbrev phones : RegistrationHost World
phones = record { random_code = succeeds 7; headscale = host; config = config }

abbrev no_phones : State World
no_phones = session (database [] [])

abbrev phone_key : Text
phone_key = codes "hskey-authreq-x"

abbrev one_phone : State World
one_phone = (register_page platform phones phone_key no_phones).1

abbrev waiting_phone : RegistrationRequest
waiting_phone = new_request platform phones phone_key (codes "000007") 1000 1

codes-Apart_example :
    (CodesApart one_phone.db × CodesApart one_phone.saved)
    × ((before rest : List RegistrationRequest) (r : RegistrationRequest)
        → one_phone.db.registrations ≡ before ++ r ∷ rest
        → is_waiting r.status ≡ true
        → get_by_display_code r.display_code one_phone.db ≡ some r)
codes-Apart_example =
    codes-Apart platform phones no_phones one_phone (step _ _ _ (stay _) (visit phone_key _ _ refl))
      (tt, tt)

-- The page shows the code that was drawn.
page_of_phone : (register_page platform phones phone_key no_phones).0 ≡ ok (some waiting_phone)
unfolding register_page is_valid_registration_key strip ◌>>=◌ ask get_by_key allocate_display_code
    draw_code outside read_world query commit zero_pad
page_of_phone = refl
