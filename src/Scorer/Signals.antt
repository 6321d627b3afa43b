-- ===== src/Scorer/Signals.antt =====
-- The signals of the risk scorer (internal/engine/scorer.go), in their order.
use Prim.Native.String.{String}
use zent_loop.Common.{ℕ, List, [], ◌∷◌, Bytes, codes}

pub record Signal : Type 0 where
  pub needle : Bytes
  pub weight : ℕ
  pub category : Bytes
  pub persona : Bytes

abbrev pub signal : String → ℕ → String → String → Signal
signal needle weight category persona = record {
  needle = codes needle;
  weight = weight;
  category = codes category;
  persona = codes persona;
}

abbrev pub path_signals : List Signal
path_signals =
    signal "/sdk/weblanguage" 52 "exploit-probe" "embedded"
    ∷ signal "/.env" 42 "secret-discovery" "devops"
    ∷ signal "/.git" 38 "source-discovery" "devops"
    ∷ signal "/wp-admin" 28 "cms-enumeration" "wordpress"
    ∷ signal "/+cscoe+/logon.html" 34 "vpn-enumeration" "remote-access"
    ∷ signal "/remote/login" 32 "vpn-enumeration" "remote-access"
    ∷ signal "/dispatch.asp" 26 "appliance-enumeration" "embedded"
    ∷ signal "/webpages/login.html" 22 "appliance-enumeration" "embedded"
    ∷ signal "/doc/index.html" 20 "appliance-enumeration" "embedded"
    ∷ signal "/manage/account/login" 22 "admin-enumeration" "web"
    ∷ signal "/login.jsp" 20 "admin-enumeration" "web"
    ∷ signal "/login.html" 14 "login-enumeration" "web"
    ∷ signal "/login.htm" 14 "login-enumeration" "web"
    ∷ signal "/wp-login" 28 "cms-enumeration" "wordpress"
    ∷ signal "/phpmyadmin" 35 "admin-enumeration" "web"
    ∷ signal "/swagger" 28 "api-enumeration" "api"
    ∷ signal "/openapi" 28 "api-enumeration" "api"
    ∷ signal "/graphql" 20 "api-enumeration" "api"
    ∷ signal "/api/json/settings/" 34 "config-enumeration" "api"
    ∷ signal "/actuator" 35 "framework-enumeration" "devops"
    ∷ signal "/jenkins" 32 "ci-enumeration" "devops"
    ∷ signal "/backup" 25 "backup-discovery" "web"
    ∷ signal "/admin" 14 "admin-enumeration" "web"
    ∷ signal "/server-status" 30 "server-enumeration" "web"
    ∷ signal "/vendor/phpunit" 45 "exploit-probe" "web"
    ∷ signal "/phpunit/" 45 "exploit-probe" "web"
    ∷ signal "/lib/phpunit/" 45 "exploit-probe" "web"
    ∷ signal "/containers/json" 44 "container-enumeration" "containers"
    ∷ signal "/credentials.js" 38 "credential-discovery" "devops"
    ∷ signal "/config.json.js" 32 "config-discovery" "devops"
    ∷ signal "/settings.js" 28 "config-discovery" "devops"
    ∷ signal "/administrator/manifests/files/joomla.xml" 30 "cms-enumeration" "joomla"
    ∷ signal "/_next/" 18 "framework-enumeration" "web"
    ∷ signal "/cgi-bin" 30 "exploit-probe" "web"
    ∷ signal "/fetch" 32 "ssrf-discovery" "api"
    ∷ signal "/$(pwd)/" 48 "file-read" "devops"
    ∷ signal "/var/www/html/.env" 48 "file-read" "devops"
    ∷ signal "/proxy" 32 "ssrf-discovery" "api"
    ∷ signal "/@fs/" 52 "file-read" "devops"
    ∷ signal "/proc/self/environ" 52 "file-read" "devops"
    ∷ signal "terraform.tfstate" 48 "credential-discovery" "cloud"
    ∷ signal "terraform.tfvars" 46 "credential-discovery" "cloud"
    ∷ signal ".azure/" 46 "credential-discovery" "cloud"
    ∷ signal ".npmrc" 42 "credential-discovery" "devops"
    ∷ signal ".netrc" 44 "credential-discovery" "devops"
    ∷ signal "rclone.conf" 44 "credential-discovery" "cloud"
    ∷ signal "/latest/meta-data/" 52 "cloud-metadata-discovery" "cloud"
    ∷ signal "/db.sql" 40 "backup-discovery" "database"
    ∷ signal "/dump.sql" 40 "backup-discovery" "database"
    ∷ signal "/id_rsa" 48 "credential-discovery" "devops"
    ∷ signal "/id_ed25519" 48 "credential-discovery" "devops"
    ∷ signal "/.docker/config.json" 46 "credential-discovery" "containers"
    ∷ signal "serviceaccountkey.json" 46 "credential-discovery" "cloud"
    ∷ signal "service-account.json" 46 "credential-discovery" "cloud"
    ∷ signal "firebase-adminsdk.json" 44 "credential-discovery" "cloud"
    ∷ signal "/credentials.json" 42 "credential-discovery" "cloud"
    ∷ signal "/secrets.json" 42 "credential-discovery" "cloud"
    ∷ signal "/wp-json/" 30 "cms-enumeration" "wordpress"
    ∷ signal "/wp/v2/" 30 "cms-enumeration" "wordpress"
    ∷ signal "credentials.yml.enc" 46 "credential-discovery" "rails"
    ∷ signal "secret_token.rb" 44 "credential-discovery" "rails"
    ∷ signal "/.svn/" 36 "source-discovery" "devops"
    ∷ signal "/.hg/" 36 "source-discovery" "devops"
    ∷ signal "aws.ini" 38 "credential-discovery" "cloud"
    ∷ signal "s3.yml" 38 "credential-discovery" "cloud"
    ∷ signal "s3.yaml" 38 "credential-discovery" "cloud"
    ∷ signal ".sql.gz" 42 "backup-discovery" "database"
    ∷ signal "/api/v1/internal/" 35 "bait-follow" "api"
    ∷ signal "/api/v2/private/" 40 "bait-follow" "api"
    ∷ signal "/ops/inventory" 38 "bait-follow" "network"
    ∷ signal "/internal/inventory" 38 "bait-follow" "network"
    ∷ signal "/registry/v2/" 38 "bait-follow" "containers"
    ∷ signal "/debug/" 32 "bait-follow" "devops"
    ∷ signal "../" 45 "path-traversal" "web"
    ∷ signal "%2e%2e" 45 "path-traversal" "web"
    ∷ signal "/etc/passwd" 55 "file-read" "web"
    ∷ []

abbrev pub payload_signals : List Signal
payload_signals =
    signal "union select" 50 "sql-injection" ""
    ∷ signal "or 1=1" 42 "sql-injection" ""
    ∷ signal "<script" 40 "xss" ""
    ∷ signal "${jndi:" 55 "jndi-probe" ""
    ∷ signal "/bin/sh" 45 "command-injection" ""
    ∷ signal "cmd=" 20 "command-injection" ""
    ∷ signal "wget " 35 "command-injection" ""
    ∷ signal "curl " 25 "command-injection" ""
    ∷ []

abbrev pub scanner_uas : List Bytes
scanner_uas =
    codes "nuclei"
    ∷ codes "sqlmap"
    ∷ codes "nikto"
    ∷ codes "masscan"
    ∷ codes "zgrab"
    ∷ codes "gobuster"
    ∷ codes "ffuf"
    ∷ codes "dirbuster"
    ∷ codes "wpscan"
    ∷ codes "acunetix"
    ∷ codes "nessus"
    ∷ codes "openvas"
    ∷ codes "python-requests"
    ∷ codes "go-http-client"
    ∷ codes "genomecrawlerd"
    ∷ []

abbrev pub measurement_uas : List Bytes
measurement_uas = codes "censysinspect" ∷ codes "shodan" ∷ codes "internet-measurement" ∷ []
