-- ===== src/Tests/Visits.antt =====
-- Visits of the gate's pages.
use step_by_step.Common.{String, ◌≡◌, refl, none, some}
use step_by_step.Gate.{redirect, render, landing_after_sign_in, resolve_gate, resolve_gate-redirect}

abbrev nothing_to_encode : String → String
nothing_to_encode s = s

stranger :
    resolve_gate nothing_to_encode {A = String} none none "/runs" ≡ redirect "/signin?next=/runs"
unfolding resolve_gate
stranger = refl

foreign_site : landing_after_sign_in (some "//example.org") ≡ "/workflows"
unfolding landing_after_sign_in
foreign_site = refl

resolve_gate-redirect_example :
    resolve_gate nothing_to_encode {A = String} none none "/signin?next=/runs" ≡ render
resolve_gate-redirect_example =
    resolve_gate-redirect nothing_to_encode none none "/runs" "/signin?next=/runs" stranger

-- A tab between two slashes is let through as it stands.
tabbed_site : landing_after_sign_in (some "/\t/example.org") ≡ "/\t/example.org"
unfolding landing_after_sign_in
tabbed_site = refl
