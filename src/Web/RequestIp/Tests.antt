-- ===== src/Web/RequestIp/Tests.antt =====
-- A request whose client claims to be another one.
use decant_fi.Common.{◌≡◌, refl, true, some}
use decant_fi.Core.Amount.{is_space}
use decant_fi.App.Choose.{trim_start_text, trim_end_text}
use decant_fi.Web.RequestIp.{Request, absent, single, first_header, has_comma, trim_text, client_ip}
use decant_fi.Web.RequestIp.Spoofing.{client_ip_ignores_prefix}

abbrev spoofed : Request
spoofed = record {
  x_real_ip = absent;
  x_forwarded_for = single " 1.2.3.4, 9.9.9.9, 203.0.113.7 ";
  sec_fetch_site = absent;
  remote_address = some "172.18.0.2";
}

guard : Unit {0}
unfolding first_header trim_text trim_start_text trim_end_text is_space has_comma
guard = tt

client_ip_ignores_prefix_example : client_ip spoofed true ≡ "203.0.113.7"
unfolding guard
client_ip_ignores_prefix_example =
    client_ip_ignores_prefix spoofed "1.2.3.4, 9.9.9.9" " 203.0.113.7" "203.0.113.7" refl refl refl
      refl refl
