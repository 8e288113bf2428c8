-- ===== src/Config/Scheme.antt =====
-- `get_plane_allocate_scheme` of config_reader.cpp, with `PlaneAllocateScheme` of
-- proto/ssd_config.proto.
use Prim.Native.String.{String}
use text.Mathlib.Text.{◌==◌}
use mcmqhost.Prelude.{◌≡◌, refl, if◌then◌else◌}

pub data PlaneAllocateScheme : Type 0 where
  cwdp cwpd cdwp cdpw cpwd cpdw wcdp wcpd wdcp wdpc wpcd wpdc dcwp dcpw dwcp dwpc dpcw dpwc pcwd
        pcdw pwcd pwdc pdcw pdwc :
      PlaneAllocateScheme

unfoldable pub get_plane_allocate_scheme : String → PlaneAllocateScheme
get_plane_allocate_scheme scheme =
    if scheme == "CWDP"
    then cwdp
    else if scheme == "CWPD"
    then cwpd
    else if scheme == "CDWP"
    then cdwp
    else if scheme == "CDPW"
    then cdpw
    else if scheme == "CPWD"
    then cpwd
    else if scheme == "CPDW"
    then cpdw
    else if scheme == "WCDP"
    then wcdp
    else if scheme == "WCPD"
    then wcpd
    else if scheme == "WDCP"
    then wdcp
    else if scheme == "WDPC"
    then wdpc
    else if scheme == "WPCD"
    then wpcd
    else if scheme == "WPDC"
    then wpdc
    else if scheme == "DCWP"
    then dcwp
    else if scheme == "DCPW"
    then dcpw
    else if scheme == "DWCP"
    then dwcp
    else if scheme == "DWPC"
    then dwpc
    else if scheme == "DPCW"
    then dpcw
    else if scheme == "DPWC"
    then dpwc
    else if scheme == "PCWD"
    then pcwd
    else if scheme == "PCDW"
    then pcdw
    else if scheme == "PWCD"
    then pwcd
    else if scheme == "PWDC"
    then pwdc
    else if scheme == "PDCW"
    then pdcw
    else if scheme == "PDWC"
    then pdwc
    else cwdp

-- The name of a scheme in a configuration file.
pub scheme_name : PlaneAllocateScheme → String
scheme_name cwdp = "CWDP"
scheme_name cwpd = "CWPD"
scheme_name cdwp = "CDWP"
scheme_name cdpw = "CDPW"
scheme_name cpwd = "CPWD"
scheme_name cpdw = "CPDW"
scheme_name wcdp = "WCDP"
scheme_name wcpd = "WCPD"
scheme_name wdcp = "WDCP"
scheme_name wdpc = "WDPC"
scheme_name wpcd = "WPCD"
scheme_name wpdc = "WPDC"
scheme_name dcwp = "DCWP"
scheme_name dcpw = "DCPW"
scheme_name dwcp = "DWCP"
scheme_name dwpc = "DWPC"
scheme_name dpcw = "DPCW"
scheme_name dpwc = "DPWC"
scheme_name pcwd = "PCWD"
scheme_name pcdw = "PCDW"
scheme_name pwcd = "PWCD"
scheme_name pwdc = "PWDC"
scheme_name pdcw = "PDCW"
scheme_name pdwc = "PDWC"

-- Each of the 24 schemes is what its own name is read as, so no name is read as another's.
pub get_plane_allocate_scheme-scheme_name :
    (p : PlaneAllocateScheme) → get_plane_allocate_scheme (scheme_name p) ≡ p
unfolding get_plane_allocate_scheme scheme_name
get_plane_allocate_scheme-scheme_name cwdp = refl
get_plane_allocate_scheme-scheme_name cwpd = refl
get_plane_allocate_scheme-scheme_name cdwp = refl
get_plane_allocate_scheme-scheme_name cdpw = refl
get_plane_allocate_scheme-scheme_name cpwd = refl
get_plane_allocate_scheme-scheme_name cpdw = refl
get_plane_allocate_scheme-scheme_name wcdp = refl
get_plane_allocate_scheme-scheme_name wcpd = refl
get_plane_allocate_scheme-scheme_name wdcp = refl
get_plane_allocate_scheme-scheme_name wdpc = refl
get_plane_allocate_scheme-scheme_name wpcd = refl
get_plane_allocate_scheme-scheme_name wpdc = refl
get_plane_allocate_scheme-scheme_name dcwp = refl
get_plane_allocate_scheme-scheme_name dcpw = refl
get_plane_allocate_scheme-scheme_name dwcp = refl
get_plane_allocate_scheme-scheme_name dwpc = refl
get_plane_allocate_scheme-scheme_name dpcw = refl
get_plane_allocate_scheme-scheme_name dpwc = refl
get_plane_allocate_scheme-scheme_name pcwd = refl
get_plane_allocate_scheme-scheme_name pcdw = refl
get_plane_allocate_scheme-scheme_name pwcd = refl
get_plane_allocate_scheme-scheme_name pwdc = refl
get_plane_allocate_scheme-scheme_name pdcw = refl
get_plane_allocate_scheme-scheme_name pdwc = refl
