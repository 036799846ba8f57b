-- ===== src/SavedCommands/Builtins.antt =====
-- The suggestions that internal/commands/service.go has built in.
use myapptest.Common.{List, [], ◌∷◌, Text, codes, String}

pub data SuggestionKind : Type 0 where
  a_command an_argument : SuggestionKind

pub record BuiltinCommandSuggestion : Type 0 where
  pub id : Text
  pub kind : SuggestionKind
  pub title : Text
  pub command : Text
  pub description : Text

builtin :
    (id : String) → SuggestionKind → (title command description : String) → BuiltinCommandSuggestion
builtin id kind title command description = record {
  id = codes id;
  kind = kind;
  title = codes title;
  command = codes command;
  description = codes description;
}

unfoldable pub builtin_command_suggestions : List BuiltinCommandSuggestion
unfolding builtin
builtin_command_suggestions =
    builtin "builtin-ls-la" a_command "List files" "ls -la" "List files with details"
    ∷ builtin "builtin-cd" a_command "Change directory" "cd" "Change current directory"
    ∷ builtin "builtin-pwd" a_command "Print directory" "pwd" "Show current directory"
    ∷ builtin "builtin-cat" a_command "Print file" "cat" "Print file content"
    ∷ builtin "builtin-less" a_command "Page file" "less" "Page through file content"
    ∷ builtin "builtin-tail-f" a_command "Follow log" "tail -f" "Follow appended file output"
    ∷ builtin "builtin-grep-r" an_argument "Recursive grep" "grep -R \"pattern\" /path"
        "Search files recursively"
    ∷ builtin "builtin-find-name" an_argument "Find by name" "find /path -name \"pattern\""
        "Find files by name"
    ∷ builtin "builtin-df-h" a_command "Disk usage" "df -h" "Show filesystem usage"
    ∷ builtin "builtin-du-sh" a_command "Directory sizes" "du -sh *" "Summarize directory sizes"
    ∷ builtin "builtin-free-h" a_command "Memory usage" "free -h" "Show memory usage"
    ∷ builtin "builtin-uptime" a_command "Uptime" "uptime" "Show uptime and load"
    ∷ builtin "builtin-top" a_command "Top" "top" "Interactive process monitor"
    ∷ builtin "builtin-htop" a_command "Htop" "htop" "Interactive process monitor"
    ∷ builtin "builtin-ps-aux" a_command "Processes" "ps aux" "List processes"
    ∷ builtin "builtin-systemctl-status" an_argument "Service status" "systemctl status"
        "Inspect systemd service"
    ∷ builtin "builtin-systemctl-restart" an_argument "Restart service" "systemctl restart"
        "Restart systemd service"
    ∷ builtin "builtin-journalctl-u" an_argument "Service logs" "journalctl -u service -f"
        "Follow systemd unit logs"
    ∷ builtin "builtin-journalctl-xe" a_command "System journal" "journalctl -xe"
        "Show recent journal errors"
    ∷ builtin "builtin-ip-addr" a_command "IP addresses" "ip addr" "Show network addresses"
    ∷ builtin "builtin-ip-route" a_command "IP routes" "ip route" "Show routing table"
    ∷ builtin "builtin-ss" a_command "Listening sockets" "ss -tulnp" "Show listening sockets"
    ∷ builtin "builtin-netstat" a_command "Listening sockets" "netstat -tulnp"
        "Show listening sockets"
    ∷ builtin "builtin-ping" an_argument "Ping" "ping -c 4 host" "Test ICMP reachability"
    ∷ builtin "builtin-traceroute" an_argument "Traceroute" "traceroute host" "Trace network path"
    ∷ builtin "builtin-dig" an_argument "DNS lookup" "dig example.com" "Query DNS records"
    ∷ builtin "builtin-nslookup" an_argument "DNS lookup" "nslookup example.com" "Query DNS records"
    ∷ builtin "builtin-curl-head" an_argument "HTTP headers" "curl -I https://example.com"
        "Fetch HTTP headers"
    ∷ builtin "builtin-wget-spider" an_argument "HTTP check" "wget --spider https://example.com"
        "Check remote URL"
    ∷ builtin "builtin-chmod" an_argument "Change mode" "chmod 0644 path" "Change file permissions"
    ∷ builtin "builtin-chown" an_argument "Change owner" "chown user:group path" "Change file owner"
    ∷ builtin "builtin-tar-czf" an_argument "Create tar.gz" "tar -czf archive.tar.gz path"
        "Create gzip tar archive"
    ∷ builtin "builtin-tar-xzf" an_argument "Extract tar.gz" "tar -xzf archive.tar.gz"
        "Extract gzip tar archive"
    ∷ builtin "builtin-docker-ps" a_command "Docker containers" "docker ps"
        "List running containers"
    ∷ builtin "builtin-docker-logs" an_argument "Docker logs" "docker logs --tail 200 -f container"
        "Follow container logs"
    ∷ builtin "builtin-docker-restart" an_argument "Docker restart" "docker restart container"
        "Restart container"
    ∷ builtin "builtin-opkg-update" a_command "OpenWrt package update" "opkg update"
        "Refresh OpenWrt package index"
    ∷ builtin "builtin-opkg-installed" a_command "OpenWrt packages" "opkg list-installed"
        "List installed OpenWrt packages"
    ∷ builtin "builtin-logread-f" a_command "OpenWrt logs" "logread -f" "Follow OpenWrt system log"
    ∷ builtin "builtin-uci-show" an_argument "OpenWrt UCI" "uci show"
        "Show OpenWrt UCI configuration"
    ∷ builtin "builtin-ubus-board" a_command "OpenWrt board info" "ubus call system board"
        "Show OpenWrt board information"
    ∷ builtin "builtin-nginx-t" a_command "Nginx test" "nginx -t" "Test nginx config"
    ∷ builtin "builtin-crontab-e" a_command "Edit crontab" "crontab -e" "Edit user crontab"
    ∷ []
