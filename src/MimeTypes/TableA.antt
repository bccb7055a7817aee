-- ===== src/MimeTypes/TableA.antt =====
-- Source/Utilities/MimeTypes.cpp: the table's part from `3ds` to `directory`.
use marisa.Prelude.{List, [], ◌∷◌, Bytes, codes}

abbrev pub mime_types_a : List (Bytes × Bytes)
mime_types_a =
    (codes "3ds", codes "image/x-3ds")
    ∷ (codes "3g2", codes "video/3gpp2")
    ∷ (codes "3ga", codes "video/3gpp")
    ∷ (codes "3gp2", codes "video/3gpp2")
    ∷ (codes "3gpp2", codes "video/3gpp2")
    ∷ (codes "3gpp", codes "video/3gpp")
    ∷ (codes "3gp", codes "video/3gpp")
    ∷ (codes "aa", codes "audio/x-pn-audibleaudio")
    ∷ (codes "aac", codes "audio/aac")
    ∷ (codes "a", codes "application/x-archive")
    ∷ (codes "aax", codes "audio/x-pn-audibleaudio")
    ∷ (codes "abc", codes "text/vnd.abc")
    ∷ (codes "abw", codes "application/x-abiword")
    ∷ (codes "ac3", codes "audio/ac3")
    ∷ (codes "ace", codes "application/x-ace")
    ∷ (codes "adb", codes "text/x-adasrc")
    ∷ (codes "adf", codes "application/x-amiga-disk-format")
    ∷ (codes "ads", codes "text/x-adasrc")
    ∷ (codes "afm", codes "application/x-font-afm")
    ∷ (codes "agb", codes "application/x-gba-rom")
    ∷ (codes "ag", codes "image/x-applix-graphics")
    ∷ (codes "ai", codes "application/illustrator")
    ∷ (codes "aif", codes "audio/x-aiff")
    ∷ (codes "aifc", codes "audio/x-aifc")
    ∷ (codes "aiff", codes "audio/x-aiff")
    ∷ (codes "aiffc", codes "audio/x-aifc")
    ∷ (codes "al", codes "application/x-perl")
    ∷ (codes "alz", codes "application/x-alz")
    ∷ (codes "amr", codes "audio/amr")
    ∷ (codes "amz", codes "audio/x-am")
    ∷ (codes "ani", codes "application/x-navi-animation")
    ∷ (codes "anx", codes "application/annodex")
    ∷ (codes "apc", codes "application/x-etherpeek")
    ∷ (codes "ape", codes "audio/x-ape")
    ∷ (codes "apk", codes "application/vnd.android.package-archive")
    ∷ (codes "appimage", codes "application/vnd.appimage")
    ∷ (codes "ar", codes "application/x-archive")
    ∷ (codes "arj", codes "application/x-arj")
    ∷ (codes "arw", codes "image/x-sony-arw")
    ∷ (codes "as", codes "application/x-applix-spreadsheet")
    ∷ (codes "ascii85", codes "text/x-ascii85")
    ∷ (codes "asc", codes "text/plain")
    ∷ (codes "asf", codes "application/vnd.ms-asf")
    ∷ (codes "asp", codes "application/x-asp")
    ∷ (codes "ass", codes "text/x-ssa")
    ∷ (codes "asx", codes "audio/x-ms-asx")
    ∷ (codes "atom", codes "application/atom")
    ∷ (codes "au", codes "audio/basic")
    ∷ (codes "automount", codes "text/x-systemd-unit")
    ∷ (codes "avf", codes "video/x-msvideo")
    ∷ (codes "avi", codes "video/x-msvideo")
    ∷ (codes "aw", codes "application/x-applix-word")
    ∷ (codes "awb", codes "audio/amr-wb")
    ∷ (codes "awk", codes "application/x-awk")
    ∷ (codes "awp", codes "application/x-accountwizard-package")
    ∷ (codes "axa", codes "audio/annodex")
    ∷ (codes "axv", codes "video/annodex")
    ∷ (codes "b2a", codes "application/btoa")
    ∷ (codes "b64", codes "application/base64")
    ∷ (codes "bak", codes "application/x-trash")
    ∷ (codes "base32", codes "text/x-base32")
    ∷ (codes "base64", codes "application/base64")
    ∷ (codes "bay", codes "image/x-kde-raw")
    ∷ (codes "bcpio", codes "application/x-bcpio")
    ∷ (codes "bdf", codes "application/x-font-bdf")
    ∷ (codes "bdm", codes "video/mp2t")
    ∷ (codes "bdmv", codes "video/mp2t")
    ∷ (codes "bfr", codes "application/x-netinstobserver")
    ∷ (codes "bib", codes "text/x-bibtex")
    ∷ (codes "bin", codes "application/octet-stream")
    ∷ (codes "blend", codes "application/x-blender")
    ∷ (codes "blender", codes "application/x-blender")
    ∷ (codes "bmp", codes "image/bmp")
    ∷ (codes "bmq", codes "image/x-kde-raw")
    ∷ (codes "bsdiff", codes "application/x-bsdiff")
    ∷ (codes "btoa", codes "application/btoa")
    ∷ (codes "bz2", codes "application/x-bzip")
    ∷ (codes "bz", codes "application/x-bzip")
    ∷ (codes "cab", codes "application/vnd.ms-cab-compressed")
    ∷ (codes "cacerts", codes "application/x-java-keystore")
    ∷ (codes "cap", codes "application/vnd.tcpdump.pcap")
    ∷ (codes "cb7", codes "application/x-cb7")
    ∷ (codes "cbl", codes "text/x-cobol")
    ∷ (codes "cbr", codes "application/x-cbr")
    ∷ (codes "cbt", codes "application/x-cbt")
    ∷ (codes "cbz", codes "application/vnd.comicbook+zip")
    ∷ (codes "ccmx", codes "application/x-ccmx")
    ∷ (codes "cc", codes "text/x-c++src")
    ∷ (codes "cda", codes "application/x-cda")
    ∷ (codes "cdf", codes "application/x-netcdf")
    ∷ (codes "cdr", codes "application/vnd.corel-draw")
    ∷ (codes "cer", codes "application/pkix-cert")
    ∷ (codes "cert", codes "application/x-x509-ca-cert")
    ∷ (codes "cgb", codes "application/x-gameboy-color-rom")
    ∷ (codes "cgm", codes "image/cgm")
    ∷ (codes "chm", codes "application/vnd.ms-htmlhelp")
    ∷ (codes "chrt", codes "application/x-kchart")
    ∷ (codes "class", codes "application/x-java")
    ∷ (codes "clpi", codes "video/mp2t")
    ∷ (codes "cls", codes "text/x-tex")
    ∷ (codes "cl", codes "text/x-opencl-src")
    ∷ (codes "cmake", codes "text/x-cmake")
    ∷ (codes "cob", codes "text/x-cobol")
    ∷ (codes "coffee", codes "application/vnd.coffeescript")
    ∷ (codes "com", codes "application/x-ms-dos-executable")
    ∷ (codes "core", codes "application/x-core")
    ∷ (codes "course", codes "application/x-kourse")
    ∷ (codes "cpio", codes "application/x-cpio")
    ∷ (codes "cpi", codes "video/mp2t")
    ∷ (codes "cpp", codes "text/x-c++src")
    ∷ (codes "cr2", codes "image/x-canon-cr2")
    ∷ (codes "crdownload", codes "application/x-partial-download")
    ∷ (codes "crl", codes "application/pkix-crl")
    ∷ (codes "crt", codes "application/x-x509-ca-cert")
    ∷ (codes "crw", codes "image/x-canon-crw")
    ∷ (codes "cs1", codes "image/x-kde-raw")
    ∷ (codes "cs2", codes "image/x-kde-raw")
    ∷ (codes "csh", codes "application/x-csh")
    ∷ (codes "csr", codes "application/pkcs10")
    ∷ (codes "css", codes "text/css")
    ∷ (codes "cs", codes "text/x-csharp")
    ∷ (codes "csvs", codes "text/csv-schema")
    ∷ (codes "csv", codes "text/csv")
    ∷ (codes "c", codes "text/x-csrc")
    ∷ (codes "c++", codes "text/x-c++src")
    ∷ (codes "cue", codes "application/x-cue")
    ∷ (codes "cur", codes "image/x-win-bitmap")
    ∷ (codes "cxx", codes "text/x-c++src")
    ∷ (codes "dar", codes "application/x-dar")
    ∷ (codes "dbf", codes "application/x-dbf")
    ∷ (codes "dbk", codes "application/x-docbook")
    ∷ (codes "dc", codes "application/x-dc-rom")
    ∷ (codes "dcl", codes "text/x-dcl")
    ∷ (codes "dcm", codes "application/dicom")
    ∷ (codes "dcr", codes "image/x-kodak-dcr")
    ∷ (codes "dds", codes "image/x-dds")
    ∷ (codes "deb", codes "application/vnd.debian.binary-package")
    ∷ (codes "der", codes "application/x-x509-ca-cert")
    ∷ (codes "desktop", codes "application/x-desktop")
    ∷ (codes "device", codes "text/x-systemd-unit")
    ∷ (codes "dia", codes "application/x-dia-diagram")
    ∷ (codes "dib", codes "image/bmp")
    ∷ (codes "dicomdir", codes "application/dicom")
    ∷ (codes "diff", codes "text/x-patch")
    ∷ (codes "directory", codes "application/x-desktop")
    ∷ []
